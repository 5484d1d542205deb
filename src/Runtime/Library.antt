-- ===== src/Runtime/Library.antt =====
-- The part of Crypto++ that the wrappers call. `none` is an exception of the library.
use defensive_systems_open_u.Prelude.{
  ℕ, ◌+◌, ◌^◌, ◌≤◌, ◌<◌, ◌≡◌, Option, some, length, Bytes, IsBytes,
}

pub record Library : Type 1 where
  pub PrivateKey : Type 0
  pub PublicKey : Type 0
  -- `InvertibleRSAFunction::Initialize` from a seed and a number of bits
  pub initialize : ℕ → ℕ → PrivateKey
  -- the conversion to `RSAFunction`
  pub public_of : PrivateKey → PublicKey
  pub save_private : PrivateKey → Bytes
  pub load_private : Bytes → Option PrivateKey
  pub save_public : PublicKey → Bytes
  pub load_public : Bytes → Option PublicKey
  -- `RSAES_OAEP_SHA`, encryption from a seed
  pub rsa_encrypt : ℕ → PublicKey → Bytes → Option Bytes
  pub rsa_decrypt : PrivateKey → Bytes → Option Bytes
  pub base64_encode : Bytes → Bytes
  pub base64_decode : Bytes → Bytes
  -- AES in CBC mode with the default padding: key, initial vector, text
  pub cbc_encrypt : Bytes → Bytes → Bytes → Bytes
  pub cbc_decrypt : Bytes → Bytes → Bytes → Option Bytes
  -- `AutoSeededRandomPool::GenerateBlock` from a seed
  pub generate_block : ℕ → ℕ → Bytes

-- Documented behaviour: saved keys load, decryption undoes encryption, blocks have their size, the
-- padding of AES adds at most a block, and the public keys of `bits` bits are short.
pub record IsLawful (L : Library) : Type 0 where
  pub load_private-save_private : (k : L.PrivateKey) → L.load_private (L.save_private k) ≡ some k
  pub load_public-save_public : (k : L.PublicKey) → L.load_public (L.save_public k) ≡ some k
  pub rsa_decrypt-rsa_encrypt :
      (seed : ℕ) (k : L.PrivateKey) (plain : Bytes) {cipher : Bytes}
      → L.rsa_encrypt seed (L.public_of k) plain ≡ some cipher
      → L.rsa_decrypt k cipher ≡ some plain
  pub cbc_decrypt-cbc_encrypt :
      (key iv plain : Bytes)
      → length key ≡ 16
      → length iv ≡ 16
      → IsBytes plain
      → L.cbc_decrypt key iv (L.cbc_encrypt key iv plain) ≡ some plain
  pub cbc_encrypt-IsBytes :
      (key iv plain : Bytes) → IsBytes plain → IsBytes (L.cbc_encrypt key iv plain)
  pub length-cbc_encrypt-le :
      (key iv plain : Bytes) → length (L.cbc_encrypt key iv plain) ≤ length plain + 16
  pub length-base64_encode-lt :
      (k : L.PublicKey) → length (L.base64_encode (L.save_public k)) < 2 ^ 16
  pub length-generate_block : (seed n : ℕ) → length (L.generate_block seed n) ≡ n
  pub generate_block-IsBytes : (seed n : ℕ) → IsBytes (L.generate_block seed n)
