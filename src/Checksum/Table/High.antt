-- ===== src/Checksum/Table/High.antt =====
-- checksum.cpp, `crctab`: rows 4 to 7 of the table, each 256 words of 32 bits.
use defensive_systems_open_u.Prelude.{ℕ, List, [], ◌∷◌}

unfoldable pub row4 : List ℕ
row4 =
    0x00000000 ∷ 0x490d678d ∷ 0x921acf1a ∷ 0xdb17a897 ∷ 0x20f48383 ∷ 0x69f9e40e ∷ 0xb2ee4c99
    ∷ 0xfbe32b14 ∷ 0x41e90706 ∷ 0x08e4608b ∷ 0xd3f3c81c ∷ 0x9afeaf91 ∷ 0x611d8485 ∷ 0x2810e308
    ∷ 0xf3074b9f ∷ 0xba0a2c12 ∷ 0x83d20e0c ∷ 0xcadf6981 ∷ 0x11c8c116 ∷ 0x58c5a69b ∷ 0xa3268d8f
    ∷ 0xea2bea02 ∷ 0x313c4295 ∷ 0x78312518 ∷ 0xc23b090a ∷ 0x8b366e87 ∷ 0x5021c610 ∷ 0x192ca19d
    ∷ 0xe2cf8a89 ∷ 0xabc2ed04 ∷ 0x70d54593 ∷ 0x39d8221e ∷ 0x036501af ∷ 0x4a686622 ∷ 0x917fceb5
    ∷ 0xd872a938 ∷ 0x2391822c ∷ 0x6a9ce5a1 ∷ 0xb18b4d36 ∷ 0xf8862abb ∷ 0x428c06a9 ∷ 0x0b816124
    ∷ 0xd096c9b3 ∷ 0x999bae3e ∷ 0x6278852a ∷ 0x2b75e2a7 ∷ 0xf0624a30 ∷ 0xb96f2dbd ∷ 0x80b70fa3
    ∷ 0xc9ba682e ∷ 0x12adc0b9 ∷ 0x5ba0a734 ∷ 0xa0438c20 ∷ 0xe94eebad ∷ 0x3259433a ∷ 0x7b5424b7
    ∷ 0xc15e08a5 ∷ 0x88536f28 ∷ 0x5344c7bf ∷ 0x1a49a032 ∷ 0xe1aa8b26 ∷ 0xa8a7ecab ∷ 0x73b0443c
    ∷ 0x3abd23b1 ∷ 0x06ca035e ∷ 0x4fc764d3 ∷ 0x94d0cc44 ∷ 0xddddabc9 ∷ 0x263e80dd ∷ 0x6f33e750
    ∷ 0xb4244fc7 ∷ 0xfd29284a ∷ 0x47230458 ∷ 0x0e2e63d5 ∷ 0xd539cb42 ∷ 0x9c34accf ∷ 0x67d787db
    ∷ 0x2edae056 ∷ 0xf5cd48c1 ∷ 0xbcc02f4c ∷ 0x85180d52 ∷ 0xcc156adf ∷ 0x1702c248 ∷ 0x5e0fa5c5
    ∷ 0xa5ec8ed1 ∷ 0xece1e95c ∷ 0x37f641cb ∷ 0x7efb2646 ∷ 0xc4f10a54 ∷ 0x8dfc6dd9 ∷ 0x56ebc54e
    ∷ 0x1fe6a2c3 ∷ 0xe40589d7 ∷ 0xad08ee5a ∷ 0x761f46cd ∷ 0x3f122140 ∷ 0x05af02f1 ∷ 0x4ca2657c
    ∷ 0x97b5cdeb ∷ 0xdeb8aa66 ∷ 0x255b8172 ∷ 0x6c56e6ff ∷ 0xb7414e68 ∷ 0xfe4c29e5 ∷ 0x444605f7
    ∷ 0x0d4b627a ∷ 0xd65ccaed ∷ 0x9f51ad60 ∷ 0x64b28674 ∷ 0x2dbfe1f9 ∷ 0xf6a8496e ∷ 0xbfa52ee3
    ∷ 0x867d0cfd ∷ 0xcf706b70 ∷ 0x1467c3e7 ∷ 0x5d6aa46a ∷ 0xa6898f7e ∷ 0xef84e8f3 ∷ 0x34934064
    ∷ 0x7d9e27e9 ∷ 0xc7940bfb ∷ 0x8e996c76 ∷ 0x558ec4e1 ∷ 0x1c83a36c ∷ 0xe7608878 ∷ 0xae6deff5
    ∷ 0x757a4762 ∷ 0x3c7720ef ∷ 0x0d9406bc ∷ 0x44996131 ∷ 0x9f8ec9a6 ∷ 0xd683ae2b ∷ 0x2d60853f
    ∷ 0x646de2b2 ∷ 0xbf7a4a25 ∷ 0xf6772da8 ∷ 0x4c7d01ba ∷ 0x05706637 ∷ 0xde67cea0 ∷ 0x976aa92d
    ∷ 0x6c898239 ∷ 0x2584e5b4 ∷ 0xfe934d23 ∷ 0xb79e2aae ∷ 0x8e4608b0 ∷ 0xc74b6f3d ∷ 0x1c5cc7aa
    ∷ 0x5551a027 ∷ 0xaeb28b33 ∷ 0xe7bfecbe ∷ 0x3ca84429 ∷ 0x75a523a4 ∷ 0xcfaf0fb6 ∷ 0x86a2683b
    ∷ 0x5db5c0ac ∷ 0x14b8a721 ∷ 0xef5b8c35 ∷ 0xa656ebb8 ∷ 0x7d41432f ∷ 0x344c24a2 ∷ 0x0ef10713
    ∷ 0x47fc609e ∷ 0x9cebc809 ∷ 0xd5e6af84 ∷ 0x2e058490 ∷ 0x6708e31d ∷ 0xbc1f4b8a ∷ 0xf5122c07
    ∷ 0x4f180015 ∷ 0x06156798 ∷ 0xdd02cf0f ∷ 0x940fa882 ∷ 0x6fec8396 ∷ 0x26e1e41b ∷ 0xfdf64c8c
    ∷ 0xb4fb2b01 ∷ 0x8d23091f ∷ 0xc42e6e92 ∷ 0x1f39c605 ∷ 0x5634a188 ∷ 0xadd78a9c ∷ 0xe4daed11
    ∷ 0x3fcd4586 ∷ 0x76c0220b ∷ 0xccca0e19 ∷ 0x85c76994 ∷ 0x5ed0c103 ∷ 0x17dda68e ∷ 0xec3e8d9a
    ∷ 0xa533ea17 ∷ 0x7e244280 ∷ 0x3729250d ∷ 0x0b5e05e2 ∷ 0x4253626f ∷ 0x9944caf8 ∷ 0xd049ad75
    ∷ 0x2baa8661 ∷ 0x62a7e1ec ∷ 0xb9b0497b ∷ 0xf0bd2ef6 ∷ 0x4ab702e4 ∷ 0x03ba6569 ∷ 0xd8adcdfe
    ∷ 0x91a0aa73 ∷ 0x6a438167 ∷ 0x234ee6ea ∷ 0xf8594e7d ∷ 0xb15429f0 ∷ 0x888c0bee ∷ 0xc1816c63
    ∷ 0x1a96c4f4 ∷ 0x539ba379 ∷ 0xa878886d ∷ 0xe175efe0 ∷ 0x3a624777 ∷ 0x736f20fa ∷ 0xc9650ce8
    ∷ 0x80686b65 ∷ 0x5b7fc3f2 ∷ 0x1272a47f ∷ 0xe9918f6b ∷ 0xa09ce8e6 ∷ 0x7b8b4071 ∷ 0x328627fc
    ∷ 0x083b044d ∷ 0x413663c0 ∷ 0x9a21cb57 ∷ 0xd32cacda ∷ 0x28cf87ce ∷ 0x61c2e043 ∷ 0xbad548d4
    ∷ 0xf3d82f59 ∷ 0x49d2034b ∷ 0x00df64c6 ∷ 0xdbc8cc51 ∷ 0x92c5abdc ∷ 0x692680c8 ∷ 0x202be745
    ∷ 0xfb3c4fd2 ∷ 0xb231285f ∷ 0x8be90a41 ∷ 0xc2e46dcc ∷ 0x19f3c55b ∷ 0x50fea2d6 ∷ 0xab1d89c2
    ∷ 0xe210ee4f ∷ 0x390746d8 ∷ 0x700a2155 ∷ 0xca000d47 ∷ 0x830d6aca ∷ 0x581ac25d ∷ 0x1117a5d0
    ∷ 0xeaf48ec4 ∷ 0xa3f9e949 ∷ 0x78ee41de ∷ 0x31e32653 ∷ []

unfoldable pub row5 : List ℕ
row5 =
    0x00000000 ∷ 0x1b280d78 ∷ 0x36501af0 ∷ 0x2d781788 ∷ 0x6ca035e0 ∷ 0x77883898 ∷ 0x5af02f10
    ∷ 0x41d82268 ∷ 0xd9406bc0 ∷ 0xc26866b8 ∷ 0xef107130 ∷ 0xf4387c48 ∷ 0xb5e05e20 ∷ 0xaec85358
    ∷ 0x83b044d0 ∷ 0x989849a8 ∷ 0xb641ca37 ∷ 0xad69c74f ∷ 0x8011d0c7 ∷ 0x9b39ddbf ∷ 0xdae1ffd7
    ∷ 0xc1c9f2af ∷ 0xecb1e527 ∷ 0xf799e85f ∷ 0x6f01a1f7 ∷ 0x7429ac8f ∷ 0x5951bb07 ∷ 0x4279b67f
    ∷ 0x03a19417 ∷ 0x1889996f ∷ 0x35f18ee7 ∷ 0x2ed9839f ∷ 0x684289d9 ∷ 0x736a84a1 ∷ 0x5e129329
    ∷ 0x453a9e51 ∷ 0x04e2bc39 ∷ 0x1fcab141 ∷ 0x32b2a6c9 ∷ 0x299aabb1 ∷ 0xb102e219 ∷ 0xaa2aef61
    ∷ 0x8752f8e9 ∷ 0x9c7af591 ∷ 0xdda2d7f9 ∷ 0xc68ada81 ∷ 0xebf2cd09 ∷ 0xf0dac071 ∷ 0xde0343ee
    ∷ 0xc52b4e96 ∷ 0xe853591e ∷ 0xf37b5466 ∷ 0xb2a3760e ∷ 0xa98b7b76 ∷ 0x84f36cfe ∷ 0x9fdb6186
    ∷ 0x0743282e ∷ 0x1c6b2556 ∷ 0x311332de ∷ 0x2a3b3fa6 ∷ 0x6be31dce ∷ 0x70cb10b6 ∷ 0x5db3073e
    ∷ 0x469b0a46 ∷ 0xd08513b2 ∷ 0xcbad1eca ∷ 0xe6d50942 ∷ 0xfdfd043a ∷ 0xbc252652 ∷ 0xa70d2b2a
    ∷ 0x8a753ca2 ∷ 0x915d31da ∷ 0x09c57872 ∷ 0x12ed750a ∷ 0x3f956282 ∷ 0x24bd6ffa ∷ 0x65654d92
    ∷ 0x7e4d40ea ∷ 0x53355762 ∷ 0x481d5a1a ∷ 0x66c4d985 ∷ 0x7decd4fd ∷ 0x5094c375 ∷ 0x4bbcce0d
    ∷ 0x0a64ec65 ∷ 0x114ce11d ∷ 0x3c34f695 ∷ 0x271cfbed ∷ 0xbf84b245 ∷ 0xa4acbf3d ∷ 0x89d4a8b5
    ∷ 0x92fca5cd ∷ 0xd32487a5 ∷ 0xc80c8add ∷ 0xe5749d55 ∷ 0xfe5c902d ∷ 0xb8c79a6b ∷ 0xa3ef9713
    ∷ 0x8e97809b ∷ 0x95bf8de3 ∷ 0xd467af8b ∷ 0xcf4fa2f3 ∷ 0xe237b57b ∷ 0xf91fb803 ∷ 0x6187f1ab
    ∷ 0x7aaffcd3 ∷ 0x57d7eb5b ∷ 0x4cffe623 ∷ 0x0d27c44b ∷ 0x160fc933 ∷ 0x3b77debb ∷ 0x205fd3c3
    ∷ 0x0e86505c ∷ 0x15ae5d24 ∷ 0x38d64aac ∷ 0x23fe47d4 ∷ 0x622665bc ∷ 0x790e68c4 ∷ 0x54767f4c
    ∷ 0x4f5e7234 ∷ 0xd7c63b9c ∷ 0xccee36e4 ∷ 0xe196216c ∷ 0xfabe2c14 ∷ 0xbb660e7c ∷ 0xa04e0304
    ∷ 0x8d36148c ∷ 0x961e19f4 ∷ 0xa5cb3ad3 ∷ 0xbee337ab ∷ 0x939b2023 ∷ 0x88b32d5b ∷ 0xc96b0f33
    ∷ 0xd243024b ∷ 0xff3b15c3 ∷ 0xe41318bb ∷ 0x7c8b5113 ∷ 0x67a35c6b ∷ 0x4adb4be3 ∷ 0x51f3469b
    ∷ 0x102b64f3 ∷ 0x0b03698b ∷ 0x267b7e03 ∷ 0x3d53737b ∷ 0x138af0e4 ∷ 0x08a2fd9c ∷ 0x25daea14
    ∷ 0x3ef2e76c ∷ 0x7f2ac504 ∷ 0x6402c87c ∷ 0x497adff4 ∷ 0x5252d28c ∷ 0xcaca9b24 ∷ 0xd1e2965c
    ∷ 0xfc9a81d4 ∷ 0xe7b28cac ∷ 0xa66aaec4 ∷ 0xbd42a3bc ∷ 0x903ab434 ∷ 0x8b12b94c ∷ 0xcd89b30a
    ∷ 0xd6a1be72 ∷ 0xfbd9a9fa ∷ 0xe0f1a482 ∷ 0xa12986ea ∷ 0xba018b92 ∷ 0x97799c1a ∷ 0x8c519162
    ∷ 0x14c9d8ca ∷ 0x0fe1d5b2 ∷ 0x2299c23a ∷ 0x39b1cf42 ∷ 0x7869ed2a ∷ 0x6341e052 ∷ 0x4e39f7da
    ∷ 0x5511faa2 ∷ 0x7bc8793d ∷ 0x60e07445 ∷ 0x4d9863cd ∷ 0x56b06eb5 ∷ 0x17684cdd ∷ 0x0c4041a5
    ∷ 0x2138562d ∷ 0x3a105b55 ∷ 0xa28812fd ∷ 0xb9a01f85 ∷ 0x94d8080d ∷ 0x8ff00575 ∷ 0xce28271d
    ∷ 0xd5002a65 ∷ 0xf8783ded ∷ 0xe3503095 ∷ 0x754e2961 ∷ 0x6e662419 ∷ 0x431e3391 ∷ 0x58363ee9
    ∷ 0x19ee1c81 ∷ 0x02c611f9 ∷ 0x2fbe0671 ∷ 0x34960b09 ∷ 0xac0e42a1 ∷ 0xb7264fd9 ∷ 0x9a5e5851
    ∷ 0x81765529 ∷ 0xc0ae7741 ∷ 0xdb867a39 ∷ 0xf6fe6db1 ∷ 0xedd660c9 ∷ 0xc30fe356 ∷ 0xd827ee2e
    ∷ 0xf55ff9a6 ∷ 0xee77f4de ∷ 0xafafd6b6 ∷ 0xb487dbce ∷ 0x99ffcc46 ∷ 0x82d7c13e ∷ 0x1a4f8896
    ∷ 0x016785ee ∷ 0x2c1f9266 ∷ 0x37379f1e ∷ 0x76efbd76 ∷ 0x6dc7b00e ∷ 0x40bfa786 ∷ 0x5b97aafe
    ∷ 0x1d0ca0b8 ∷ 0x0624adc0 ∷ 0x2b5cba48 ∷ 0x3074b730 ∷ 0x71ac9558 ∷ 0x6a849820 ∷ 0x47fc8fa8
    ∷ 0x5cd482d0 ∷ 0xc44ccb78 ∷ 0xdf64c600 ∷ 0xf21cd188 ∷ 0xe934dcf0 ∷ 0xa8ecfe98 ∷ 0xb3c4f3e0
    ∷ 0x9ebce468 ∷ 0x8594e910 ∷ 0xab4d6a8f ∷ 0xb06567f7 ∷ 0x9d1d707f ∷ 0x86357d07 ∷ 0xc7ed5f6f
    ∷ 0xdcc55217 ∷ 0xf1bd459f ∷ 0xea9548e7 ∷ 0x720d014f ∷ 0x69250c37 ∷ 0x445d1bbf ∷ 0x5f7516c7
    ∷ 0x1ead34af ∷ 0x058539d7 ∷ 0x28fd2e5f ∷ 0x33d52327 ∷ []

unfoldable pub row6 : List ℕ
row6 =
    0x00000000 ∷ 0x4f576811 ∷ 0x9eaed022 ∷ 0xd1f9b833 ∷ 0x399cbdf3 ∷ 0x76cbd5e2 ∷ 0xa7326dd1
    ∷ 0xe86505c0 ∷ 0x73397be6 ∷ 0x3c6e13f7 ∷ 0xed97abc4 ∷ 0xa2c0c3d5 ∷ 0x4aa5c615 ∷ 0x05f2ae04
    ∷ 0xd40b1637 ∷ 0x9b5c7e26 ∷ 0xe672f7cc ∷ 0xa9259fdd ∷ 0x78dc27ee ∷ 0x378b4fff ∷ 0xdfee4a3f
    ∷ 0x90b9222e ∷ 0x41409a1d ∷ 0x0e17f20c ∷ 0x954b8c2a ∷ 0xda1ce43b ∷ 0x0be55c08 ∷ 0x44b23419
    ∷ 0xacd731d9 ∷ 0xe38059c8 ∷ 0x3279e1fb ∷ 0x7d2e89ea ∷ 0xc824f22f ∷ 0x87739a3e ∷ 0x568a220d
    ∷ 0x19dd4a1c ∷ 0xf1b84fdc ∷ 0xbeef27cd ∷ 0x6f169ffe ∷ 0x2041f7ef ∷ 0xbb1d89c9 ∷ 0xf44ae1d8
    ∷ 0x25b359eb ∷ 0x6ae431fa ∷ 0x8281343a ∷ 0xcdd65c2b ∷ 0x1c2fe418 ∷ 0x53788c09 ∷ 0x2e5605e3
    ∷ 0x61016df2 ∷ 0xb0f8d5c1 ∷ 0xffafbdd0 ∷ 0x17cab810 ∷ 0x589dd001 ∷ 0x89646832 ∷ 0xc6330023
    ∷ 0x5d6f7e05 ∷ 0x12381614 ∷ 0xc3c1ae27 ∷ 0x8c96c636 ∷ 0x64f3c3f6 ∷ 0x2ba4abe7 ∷ 0xfa5d13d4
    ∷ 0xb50a7bc5 ∷ 0x9488f9e9 ∷ 0xdbdf91f8 ∷ 0x0a2629cb ∷ 0x457141da ∷ 0xad14441a ∷ 0xe2432c0b
    ∷ 0x33ba9438 ∷ 0x7cedfc29 ∷ 0xe7b1820f ∷ 0xa8e6ea1e ∷ 0x791f522d ∷ 0x36483a3c ∷ 0xde2d3ffc
    ∷ 0x917a57ed ∷ 0x4083efde ∷ 0x0fd487cf ∷ 0x72fa0e25 ∷ 0x3dad6634 ∷ 0xec54de07 ∷ 0xa303b616
    ∷ 0x4b66b3d6 ∷ 0x0431dbc7 ∷ 0xd5c863f4 ∷ 0x9a9f0be5 ∷ 0x01c375c3 ∷ 0x4e941dd2 ∷ 0x9f6da5e1
    ∷ 0xd03acdf0 ∷ 0x385fc830 ∷ 0x7708a021 ∷ 0xa6f11812 ∷ 0xe9a67003 ∷ 0x5cac0bc6 ∷ 0x13fb63d7
    ∷ 0xc202dbe4 ∷ 0x8d55b3f5 ∷ 0x6530b635 ∷ 0x2a67de24 ∷ 0xfb9e6617 ∷ 0xb4c90e06 ∷ 0x2f957020
    ∷ 0x60c21831 ∷ 0xb13ba002 ∷ 0xfe6cc813 ∷ 0x1609cdd3 ∷ 0x595ea5c2 ∷ 0x88a71df1 ∷ 0xc7f075e0
    ∷ 0xbadefc0a ∷ 0xf589941b ∷ 0x24702c28 ∷ 0x6b274439 ∷ 0x834241f9 ∷ 0xcc1529e8 ∷ 0x1dec91db
    ∷ 0x52bbf9ca ∷ 0xc9e787ec ∷ 0x86b0effd ∷ 0x574957ce ∷ 0x181e3fdf ∷ 0xf07b3a1f ∷ 0xbf2c520e
    ∷ 0x6ed5ea3d ∷ 0x2182822c ∷ 0x2dd0ee65 ∷ 0x62878674 ∷ 0xb37e3e47 ∷ 0xfc295656 ∷ 0x144c5396
    ∷ 0x5b1b3b87 ∷ 0x8ae283b4 ∷ 0xc5b5eba5 ∷ 0x5ee99583 ∷ 0x11befd92 ∷ 0xc04745a1 ∷ 0x8f102db0
    ∷ 0x67752870 ∷ 0x28224061 ∷ 0xf9dbf852 ∷ 0xb68c9043 ∷ 0xcba219a9 ∷ 0x84f571b8 ∷ 0x550cc98b
    ∷ 0x1a5ba19a ∷ 0xf23ea45a ∷ 0xbd69cc4b ∷ 0x6c907478 ∷ 0x23c71c69 ∷ 0xb89b624f ∷ 0xf7cc0a5e
    ∷ 0x2635b26d ∷ 0x6962da7c ∷ 0x8107dfbc ∷ 0xce50b7ad ∷ 0x1fa90f9e ∷ 0x50fe678f ∷ 0xe5f41c4a
    ∷ 0xaaa3745b ∷ 0x7b5acc68 ∷ 0x340da479 ∷ 0xdc68a1b9 ∷ 0x933fc9a8 ∷ 0x42c6719b ∷ 0x0d91198a
    ∷ 0x96cd67ac ∷ 0xd99a0fbd ∷ 0x0863b78e ∷ 0x4734df9f ∷ 0xaf51da5f ∷ 0xe006b24e ∷ 0x31ff0a7d
    ∷ 0x7ea8626c ∷ 0x0386eb86 ∷ 0x4cd18397 ∷ 0x9d283ba4 ∷ 0xd27f53b5 ∷ 0x3a1a5675 ∷ 0x754d3e64
    ∷ 0xa4b48657 ∷ 0xebe3ee46 ∷ 0x70bf9060 ∷ 0x3fe8f871 ∷ 0xee114042 ∷ 0xa1462853 ∷ 0x49232d93
    ∷ 0x06744582 ∷ 0xd78dfdb1 ∷ 0x98da95a0 ∷ 0xb958178c ∷ 0xf60f7f9d ∷ 0x27f6c7ae ∷ 0x68a1afbf
    ∷ 0x80c4aa7f ∷ 0xcf93c26e ∷ 0x1e6a7a5d ∷ 0x513d124c ∷ 0xca616c6a ∷ 0x8536047b ∷ 0x54cfbc48
    ∷ 0x1b98d459 ∷ 0xf3fdd199 ∷ 0xbcaab988 ∷ 0x6d5301bb ∷ 0x220469aa ∷ 0x5f2ae040 ∷ 0x107d8851
    ∷ 0xc1843062 ∷ 0x8ed35873 ∷ 0x66b65db3 ∷ 0x29e135a2 ∷ 0xf8188d91 ∷ 0xb74fe580 ∷ 0x2c139ba6
    ∷ 0x6344f3b7 ∷ 0xb2bd4b84 ∷ 0xfdea2395 ∷ 0x158f2655 ∷ 0x5ad84e44 ∷ 0x8b21f677 ∷ 0xc4769e66
    ∷ 0x717ce5a3 ∷ 0x3e2b8db2 ∷ 0xefd23581 ∷ 0xa0855d90 ∷ 0x48e05850 ∷ 0x07b73041 ∷ 0xd64e8872
    ∷ 0x9919e063 ∷ 0x02459e45 ∷ 0x4d12f654 ∷ 0x9ceb4e67 ∷ 0xd3bc2676 ∷ 0x3bd923b6 ∷ 0x748e4ba7
    ∷ 0xa577f394 ∷ 0xea209b85 ∷ 0x970e126f ∷ 0xd8597a7e ∷ 0x09a0c24d ∷ 0x46f7aa5c ∷ 0xae92af9c
    ∷ 0xe1c5c78d ∷ 0x303c7fbe ∷ 0x7f6b17af ∷ 0xe4376989 ∷ 0xab600198 ∷ 0x7a99b9ab ∷ 0x35ced1ba
    ∷ 0xddabd47a ∷ 0x92fcbc6b ∷ 0x43050458 ∷ 0x0c526c49 ∷ []

unfoldable pub row7 : List ℕ
row7 =
    0x00000000 ∷ 0x5ba1dcca ∷ 0xb743b994 ∷ 0xece2655e ∷ 0x6a466e9f ∷ 0x31e7b255 ∷ 0xdd05d70b
    ∷ 0x86a40bc1 ∷ 0xd48cdd3e ∷ 0x8f2d01f4 ∷ 0x63cf64aa ∷ 0x386eb860 ∷ 0xbecab3a1 ∷ 0xe56b6f6b
    ∷ 0x09890a35 ∷ 0x5228d6ff ∷ 0xadd8a7cb ∷ 0xf6797b01 ∷ 0x1a9b1e5f ∷ 0x413ac295 ∷ 0xc79ec954
    ∷ 0x9c3f159e ∷ 0x70dd70c0 ∷ 0x2b7cac0a ∷ 0x79547af5 ∷ 0x22f5a63f ∷ 0xce17c361 ∷ 0x95b61fab
    ∷ 0x1312146a ∷ 0x48b3c8a0 ∷ 0xa451adfe ∷ 0xfff07134 ∷ 0x5f705221 ∷ 0x04d18eeb ∷ 0xe833ebb5
    ∷ 0xb392377f ∷ 0x35363cbe ∷ 0x6e97e074 ∷ 0x8275852a ∷ 0xd9d459e0 ∷ 0x8bfc8f1f ∷ 0xd05d53d5
    ∷ 0x3cbf368b ∷ 0x671eea41 ∷ 0xe1bae180 ∷ 0xba1b3d4a ∷ 0x56f95814 ∷ 0x0d5884de ∷ 0xf2a8f5ea
    ∷ 0xa9092920 ∷ 0x45eb4c7e ∷ 0x1e4a90b4 ∷ 0x98ee9b75 ∷ 0xc34f47bf ∷ 0x2fad22e1 ∷ 0x740cfe2b
    ∷ 0x262428d4 ∷ 0x7d85f41e ∷ 0x91679140 ∷ 0xcac64d8a ∷ 0x4c62464b ∷ 0x17c39a81 ∷ 0xfb21ffdf
    ∷ 0xa0802315 ∷ 0xbee0a442 ∷ 0xe5417888 ∷ 0x09a31dd6 ∷ 0x5202c11c ∷ 0xd4a6cadd ∷ 0x8f071617
    ∷ 0x63e57349 ∷ 0x3844af83 ∷ 0x6a6c797c ∷ 0x31cda5b6 ∷ 0xdd2fc0e8 ∷ 0x868e1c22 ∷ 0x002a17e3
    ∷ 0x5b8bcb29 ∷ 0xb769ae77 ∷ 0xecc872bd ∷ 0x13380389 ∷ 0x4899df43 ∷ 0xa47bba1d ∷ 0xffda66d7
    ∷ 0x797e6d16 ∷ 0x22dfb1dc ∷ 0xce3dd482 ∷ 0x959c0848 ∷ 0xc7b4deb7 ∷ 0x9c15027d ∷ 0x70f76723
    ∷ 0x2b56bbe9 ∷ 0xadf2b028 ∷ 0xf6536ce2 ∷ 0x1ab109bc ∷ 0x4110d576 ∷ 0xe190f663 ∷ 0xba312aa9
    ∷ 0x56d34ff7 ∷ 0x0d72933d ∷ 0x8bd698fc ∷ 0xd0774436 ∷ 0x3c952168 ∷ 0x6734fda2 ∷ 0x351c2b5d
    ∷ 0x6ebdf797 ∷ 0x825f92c9 ∷ 0xd9fe4e03 ∷ 0x5f5a45c2 ∷ 0x04fb9908 ∷ 0xe819fc56 ∷ 0xb3b8209c
    ∷ 0x4c4851a8 ∷ 0x17e98d62 ∷ 0xfb0be83c ∷ 0xa0aa34f6 ∷ 0x260e3f37 ∷ 0x7dafe3fd ∷ 0x914d86a3
    ∷ 0xcaec5a69 ∷ 0x98c48c96 ∷ 0xc365505c ∷ 0x2f873502 ∷ 0x7426e9c8 ∷ 0xf282e209 ∷ 0xa9233ec3
    ∷ 0x45c15b9d ∷ 0x1e608757 ∷ 0x79005533 ∷ 0x22a189f9 ∷ 0xce43eca7 ∷ 0x95e2306d ∷ 0x13463bac
    ∷ 0x48e7e766 ∷ 0xa4058238 ∷ 0xffa45ef2 ∷ 0xad8c880d ∷ 0xf62d54c7 ∷ 0x1acf3199 ∷ 0x416eed53
    ∷ 0xc7cae692 ∷ 0x9c6b3a58 ∷ 0x70895f06 ∷ 0x2b2883cc ∷ 0xd4d8f2f8 ∷ 0x8f792e32 ∷ 0x639b4b6c
    ∷ 0x383a97a6 ∷ 0xbe9e9c67 ∷ 0xe53f40ad ∷ 0x09dd25f3 ∷ 0x527cf939 ∷ 0x00542fc6 ∷ 0x5bf5f30c
    ∷ 0xb7179652 ∷ 0xecb64a98 ∷ 0x6a124159 ∷ 0x31b39d93 ∷ 0xdd51f8cd ∷ 0x86f02407 ∷ 0x26700712
    ∷ 0x7dd1dbd8 ∷ 0x9133be86 ∷ 0xca92624c ∷ 0x4c36698d ∷ 0x1797b547 ∷ 0xfb75d019 ∷ 0xa0d40cd3
    ∷ 0xf2fcda2c ∷ 0xa95d06e6 ∷ 0x45bf63b8 ∷ 0x1e1ebf72 ∷ 0x98bab4b3 ∷ 0xc31b6879 ∷ 0x2ff90d27
    ∷ 0x7458d1ed ∷ 0x8ba8a0d9 ∷ 0xd0097c13 ∷ 0x3ceb194d ∷ 0x674ac587 ∷ 0xe1eece46 ∷ 0xba4f128c
    ∷ 0x56ad77d2 ∷ 0x0d0cab18 ∷ 0x5f247de7 ∷ 0x0485a12d ∷ 0xe867c473 ∷ 0xb3c618b9 ∷ 0x35621378
    ∷ 0x6ec3cfb2 ∷ 0x8221aaec ∷ 0xd9807626 ∷ 0xc7e0f171 ∷ 0x9c412dbb ∷ 0x70a348e5 ∷ 0x2b02942f
    ∷ 0xada69fee ∷ 0xf6074324 ∷ 0x1ae5267a ∷ 0x4144fab0 ∷ 0x136c2c4f ∷ 0x48cdf085 ∷ 0xa42f95db
    ∷ 0xff8e4911 ∷ 0x792a42d0 ∷ 0x228b9e1a ∷ 0xce69fb44 ∷ 0x95c8278e ∷ 0x6a3856ba ∷ 0x31998a70
    ∷ 0xdd7bef2e ∷ 0x86da33e4 ∷ 0x007e3825 ∷ 0x5bdfe4ef ∷ 0xb73d81b1 ∷ 0xec9c5d7b ∷ 0xbeb48b84
    ∷ 0xe515574e ∷ 0x09f73210 ∷ 0x5256eeda ∷ 0xd4f2e51b ∷ 0x8f5339d1 ∷ 0x63b15c8f ∷ 0x38108045
    ∷ 0x9890a350 ∷ 0xc3317f9a ∷ 0x2fd31ac4 ∷ 0x7472c60e ∷ 0xf2d6cdcf ∷ 0xa9771105 ∷ 0x4595745b
    ∷ 0x1e34a891 ∷ 0x4c1c7e6e ∷ 0x17bda2a4 ∷ 0xfb5fc7fa ∷ 0xa0fe1b30 ∷ 0x265a10f1 ∷ 0x7dfbcc3b
    ∷ 0x9119a965 ∷ 0xcab875af ∷ 0x3548049b ∷ 0x6ee9d851 ∷ 0x820bbd0f ∷ 0xd9aa61c5 ∷ 0x5f0e6a04
    ∷ 0x04afb6ce ∷ 0xe84dd390 ∷ 0xb3ec0f5a ∷ 0xe1c4d9a5 ∷ 0xba65056f ∷ 0x56876031 ∷ 0x0d26bcfb
    ∷ 0x8b82b73a ∷ 0xd0236bf0 ∷ 0x3cc10eae ∷ 0x6760d264 ∷ []
