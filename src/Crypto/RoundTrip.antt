-- ===== src/Crypto/RoundTrip.antt =====
-- CryptoHandler.cpp and the wrappers: encryption followed by decryption.
use native.Mathlib.Nat.{mod-eq_of_lt}
use defensive_systems_open_u.Prelude.{
  ℕ, ◌+◌, ◌-◌, ◌^◌, ◌≤◌, ◌<◌, ◌≡◌, refl, ap, ap₂, ◌∙◌, arith, Option, some, [], ◌∷◌, codes, newline,
  ◌++◌, length, length-append, take, drop, Bytes, IsBytes, IsBytes-append, hex, ==_iff, ltb, false,
}
use defensive_systems_open_u.Buffer.{read_at}
use defensive_systems_open_u.Buffer.Laws.{read_at_fits, take_all, take-append, drop-append_all}
use defensive_systems_open_u.Crypto.{generate_rsa_key_pair, encrypt_with_aes, decrypt_with_rsa}
use defensive_systems_open_u.Crypto.Aes.{AesWrapper, aes_wrapper, aes_encrypt, aes_decrypt}
use defensive_systems_open_u.Crypto.Hex.{unhex, unhex-hex}
use defensive_systems_open_u.Crypto.Rsa.{public_key_text, bits, private_wrapper_key}
use defensive_systems_open_u.Runtime.Library
use defensive_systems_open_u.Runtime.Library.{Library}
use defensive_systems_open_u.Runtime.Os.{Os}
use defensive_systems_open_u.Runtime.Exec.{Result, ok, ◌>>=◌}
use defensive_systems_open_u.Runtime.World.{World}

read_at_whole : (b : Bytes) → read_at 0 (length b) b ≡ some b
read_at_whole b = read_at_fits 0 (length b) b (omega arith) ∙ ap some (take_all b (length b) refl)

-- The initial vector, drawn from this seed, and the encrypted text behind it.
abbrev pub cipher_text : Library → Bytes → Bytes → ℕ → Bytes
cipher_text L key plain seed =
    L.generate_block seed 16 ++ L.cbc_encrypt key (L.generate_block seed 16) plain

-- What a reader finds between the first line of a PEM text and its last, of 26 and 24 characters.
abbrev pub public_key_of : (L : Library) → Bytes → Option L.PublicKey
public_key_of L text = L.load_public (L.base64_decode (take (length text - 53) (drop 27 text)))

module _ (L : Library) (lawful : Library.IsLawful L) where
  pub cipher_text-IsBytes :
      (key plain : Bytes) (seed : ℕ) → IsBytes plain → IsBytes (cipher_text L key plain seed)
  cipher_text-IsBytes key plain seed h =
      IsBytes-append (L.generate_block seed 16) _ (lawful.generate_block-IsBytes seed 16)
        (lawful.cbc_encrypt-IsBytes key _ plain h)

  pub length-cipher_text-le :
      (key plain : Bytes) (seed : ℕ) → length (cipher_text L key plain seed) ≤ length plain + 32
  length-cipher_text-le key plain seed = omega (
    arith,
    length-append (L.generate_block seed 16) (L.cbc_encrypt key (L.generate_block seed 16) plain),
    lawful.length-generate_block seed 16,
    lawful.length-cbc_encrypt-le key (L.generate_block seed 16) plain,
  )

  -- The receiver takes the initial vector off and decrypts the rest.
  pub cbc_decrypt-cipher_text :
      (key plain : Bytes) (seed : ℕ)
      → length key ≡ 16
      → IsBytes plain
      → L.cbc_decrypt key
          (take 16 (cipher_text L key plain seed))
          (drop 16 (cipher_text L key plain seed))
        ≡ some plain
  cbc_decrypt-cipher_text key plain seed hk hp =
      ap₂ (L.cbc_decrypt key) (take-append iv _ 16 size) (drop-append_all iv _ 16 size)
      ∙ lawful.cbc_decrypt-cbc_encrypt key iv plain hk size hp
    where
      iv : Bytes
      iv = L.generate_block seed 16

      size : length iv ≡ 16
      size = lawful.length-generate_block seed 16

  public_key_of-public_key_text :
      (key : L.PrivateKey)
      → ((b : Bytes) → L.base64_decode (L.base64_encode b) ≡ b)
      → public_key_of L (public_key_text L key) ≡ some (L.public_of key)
  unfolding public_key_text
  public_key_of-public_key_text key decodes =
      ap (λ (n : ℕ). L.load_public (L.base64_decode (take n (body ++ tail)))) size
      ∙ ap (λ (b : Bytes). L.load_public (L.base64_decode b)) (take-append body tail _ refl)
      ∙ ap L.load_public (decodes _)
      ∙ lawful.load_public-save_public (L.public_of key)
    where
      body : Bytes
      body = L.base64_encode (L.save_public (L.public_of key))

      tail : Bytes
      tail = newline ∷ (codes "-----END PUBLIC KEY-----" ++ (newline ∷ []))

      size : length (public_key_text L key) - 53 ≡ length body
      size = omega (arith, length-append body tail)

module _ {O : Os} (L : Library) (lawful : Library.IsLawful L) where
  aes_wrapper_lem :
      (key : Bytes) (w : World O)
      → length key ≡ 16
      → aes_wrapper key 16 w ≡ (ok (record { key = key }), w)
  unfolding aes_wrapper ◌>>=◌
  aes_wrapper_lem key w h =
      rw (read_at_fits 0 16 key (omega arith))
        (ap (λ (t : Bytes). (ok (record { key = t }), w)) (take_all key 16 h))

  aes_encrypt_lem :
      (a : AesWrapper) (plain : Bytes) (w : World O)
      → aes_encrypt L a plain (length plain) w
        ≡ (ok (cipher_text L a.key plain (O.entropy w.os).0), record w { os = (O.entropy w.os).1 })
  unfolding aes_encrypt ◌>>=◌
  aes_encrypt_lem a plain w = rw (read_at_whole plain) refl

  pub encrypt_with_aes_lem :
      (plain key : Bytes) (w : World O)
      → length key ≡ 16
      → length plain < 2 ^ 32
      → encrypt_with_aes L plain key w ≡ (
        ok (hex (cipher_text L key plain (O.entropy w.os).0)),
        record w { os = (O.entropy w.os).1 },
      )
  unfolding encrypt_with_aes ◌>>=◌
  encrypt_with_aes_lem plain key w h fits = rw ((==_iff (length key) 16).1 h) (
      rw (read_at_fits 0 16 key (omega arith), take_all key 16 h)
        (rw (mod-eq_of_lt fits) (rw (read_at_whole plain) refl)))

  aes_decrypt_lem :
      (a : AesWrapper) (iv plain : Bytes) (v : World O)
      → length a.key ≡ 16
      → length iv ≡ 16
      → IsBytes plain
      → aes_decrypt L a
          (iv ++ L.cbc_encrypt a.key iv plain)
          (length (iv ++ L.cbc_encrypt a.key iv plain))
          v
        ≡ (ok plain, v)
  unfolding aes_decrypt ◌>>=◌
  aes_decrypt_lem a iv plain v hk h hp =
      rw (enough, front, back) (rw (lawful.cbc_decrypt-cbc_encrypt a.key iv plain hk h hp) refl)
    where
      cipher : Bytes
      cipher = iv ++ L.cbc_encrypt a.key iv plain

      size : length cipher ≡ 16 + length (L.cbc_encrypt a.key iv plain)
      size = omega (arith, length-append iv (L.cbc_encrypt a.key iv plain))

      enough : ltb (length cipher) 16 ≡ false
      enough = ground (arith, size)

      front : read_at 0 16 cipher ≡ some iv
      front =
          read_at_fits 0 16 cipher (omega (arith, size))
          ∙ ap some (take-append iv (L.cbc_encrypt a.key iv plain) 16 h)

      back : read_at 16 (length cipher - 16) cipher ≡ some (L.cbc_encrypt a.key iv plain)
      back =
          read_at_fits 16 (length cipher - 16) cipher (omega (arith, size))
          ∙ ap some (
              ap (take (length cipher - 16))
                (drop-append_all iv (L.cbc_encrypt a.key iv plain) 16 h)
              ∙ take_all (L.cbc_encrypt a.key iv plain) (length cipher - 16) (omega (arith, size)))

  pub decrypt_with_rsa_lem :
      (key : L.PrivateKey) (seed : ℕ) (plain cipher : Bytes) (v : World O)
      → L.rsa_encrypt seed (L.public_of key) plain ≡ some cipher
      → decrypt_with_rsa L cipher (private_wrapper_key L key) v ≡ (ok plain, v)
  unfolding decrypt_with_rsa ◌>>=◌ private_wrapper_key
  decrypt_with_rsa_lem key seed plain cipher v e =
      rw (lawful.load_private-save_private key)
        (rw (lawful.rsa_decrypt-rsa_encrypt seed key plain e) refl)

  pub generate_rsa_key_pair_lem :
      (w : World O)
      → generate_rsa_key_pair L w ≡ (
        ok (
          public_key_text L (L.initialize (O.entropy w.os).0 bits),
          private_wrapper_key L (L.initialize (O.entropy w.os).0 bits),
        ),
        record w { os = (O.entropy w.os).1 },
      )
  unfolding generate_rsa_key_pair ◌>>=◌
  generate_rsa_key_pair_lem w = refl

  -- With a library that meets its documented laws and a key of sixteen bytes, a text of bytes whose
  -- length an `unsigned int` counts is encrypted without an error, and the receiver who turns the
  -- hexadecimal digits back into bytes and decrypts them with the same key has the text.
  pub encrypt_with_aes-aes_decrypt :
      (plain key : Bytes) (w : World O)
      → length key ≡ 16
      → length plain < 2 ^ 32
      → IsBytes plain
      → (text : Bytes) × ((encrypt_with_aes L plain key w).0 ≡ ok text)
        × ((v : World O)
            → aes_decrypt L (record { key = key }) (unhex text) (length (unhex text)) v
              ≡ (ok plain, v))
  encrypt_with_aes-aes_decrypt plain key w h fits bytes = (hex cipher, done, undone)
    where
      iv : Bytes
      iv = L.generate_block (O.entropy w.os).0 16

      cipher : Bytes
      cipher = iv ++ L.cbc_encrypt key iv plain

      done : (encrypt_with_aes L plain key w).0 ≡ ok (hex cipher)
      done = ap (λ (p : Result Bytes × World O). p.0) (encrypt_with_aes_lem plain key w h fits)

      back : unhex (hex cipher) ≡ cipher
      back = unhex-hex cipher (cipher_text-IsBytes L lawful key plain (O.entropy w.os).0 bytes)

      undone :
          (v : World O)
          → aes_decrypt L
              (record { key = key })
              (unhex (hex cipher))
              (length (unhex (hex cipher)))
              v
            ≡ (ok plain, v)
      undone v = rw back (
          aes_decrypt_lem (record { key = key }) iv plain v h (lawful.length-generate_block _ 16)
            bytes)

  -- With a library that meets its documented laws and whose Base64 decoding undoes its encoding, the
  -- two texts that are generated belong together: whoever reads the first as a public key between
  -- the two lines of a PEM text finds one, and what is encrypted with it is decrypted with the second.
  pub generate_rsa_key_pair-decrypt :
      (w : World O)
      → ((b : Bytes) → L.base64_decode (L.base64_encode b) ≡ b)
      → (public_text private_text : Bytes) × (public_key : L.PublicKey) × ((generate_rsa_key_pair L
            w).0
          ≡ ok (public_text, private_text))
        × (public_key_of L public_text ≡ some public_key)
        × ((seed : ℕ) (plain cipher : Bytes) (v : World O)
            → L.rsa_encrypt seed public_key plain ≡ some cipher
            → decrypt_with_rsa L cipher private_text v ≡ (ok plain, v))
  generate_rsa_key_pair-decrypt w decodes =
      let key = L.initialize (O.entropy w.os).0 bits in
      (
        public_key_text L key,
        private_wrapper_key L key,
        L.public_of key,
        ap (λ (p : Result (Bytes × Bytes) × World O). p.0) (generate_rsa_key_pair_lem w),
        public_key_of-public_key_text L lawful key decodes,
        λ seed plain cipher v e. decrypt_with_rsa_lem _ seed plain cipher v e,
      )
