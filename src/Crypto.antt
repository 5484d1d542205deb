-- ===== src/Crypto.antt =====
-- CryptoHandler.cpp and CryptoHandler.h.
pub mod Aes
pub mod Rsa
pub mod Hex
pub mod RoundTrip
use defensive_systems_open_u.Prelude.{ℕ, ◌%◌, ◌^◌, length, Bytes, codes, hex, ◌==◌, if◌then◌else◌}
use defensive_systems_open_u.Crypto.Aes.{aes_wrapper, aes_encrypt}
use defensive_systems_open_u.Crypto.Rsa.{
  private_wrapper_new, private_wrapper, private_wrapper_key, public_key_text, decrypt,
}
use defensive_systems_open_u.Runtime.Os.{Os}
use defensive_systems_open_u.Runtime.Library.{Library}
use defensive_systems_open_u.Runtime.Exec.{invalid_argument, pure, throw, ◌>>=◌}
use defensive_systems_open_u.Runtime.World.{M}

module _ {O : Os} (L : Library) where
  -- The public key's text, then the private key's bytes.
  unfoldable pub generate_rsa_key_pair : M O (Bytes × Bytes)
  unfolding private_wrapper_new public_key_text private_wrapper_key
  generate_rsa_key_pair = do
    key ← private_wrapper_new L
    pure (public_key_text L key, private_wrapper_key L key)

  -- The length of the text goes to an `unsigned int`.
  unfoldable pub encrypt_with_aes : Bytes → Bytes → M O Bytes
  unfolding aes_wrapper aes_encrypt hex
  encrypt_with_aes plaintext aes_key =
      if length aes_key == 16
      then (do
        a ← aes_wrapper aes_key 16
        encrypted ← aes_encrypt L a plaintext (length plaintext % 2 ^ 32)
        pure (hex encrypted))
      else throw invalid_argument (codes "Key length must be 16 bytes.")

  unfoldable pub decrypt_with_rsa : Bytes → Bytes → M O Bytes
  unfolding private_wrapper decrypt
  decrypt_with_rsa ciphertext private_key = do
    key ← private_wrapper L private_key
    decrypt L key ciphertext
