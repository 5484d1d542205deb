-- ===== src/Crypto/Rsa/Pointers.antt =====
-- RSAWrapper.cpp, the overloads over a pointer and a length. A pointer is the bytes of the array that
-- it points to, and `fault` is an access beyond its end.
pub mod Agree
use defensive_systems_open_u.Prelude.{ℕ, take, Bytes, codes}
use defensive_systems_open_u.Buffer.{read_at, write_at}
use defensive_systems_open_u.Crypto.Aes.{draw, or_library_error}
use defensive_systems_open_u.Crypto.Rsa.{PublicWrapper, PrivateWrapper}
use defensive_systems_open_u.Runtime.Os.{Os}
use defensive_systems_open_u.Runtime.Library.{Library}
use defensive_systems_open_u.Runtime.Exec.{in_bounds, ◌>>=◌}
use defensive_systems_open_u.Runtime.World.{M}

-- `RSAPublicWrapper::KEYSIZE` and `RSAPublicWrapper::BITS`, which nothing uses.
abbrev pub key_size : ℕ
key_size = 160

abbrev pub public_bits : ℕ
public_bits = 1024

module _ {O : Os} where
  -- An `ArraySink` of this length takes the bytes that fit and drops the rest.
  unfoldable pub array_sink : Bytes → Bytes → ℕ → M O Bytes
  unfolding write_at
  array_sink bytes keyout size = in_bounds (write_at 0 (take size bytes) keyout)

module _ {O : Os} (L : Library) where
  -- `RSAPublicWrapper(key, length)`
  unfoldable pub public_wrapper_at : Bytes → ℕ → M O (PublicWrapper L)
  unfolding read_at or_library_error
  public_wrapper_at key size = do
    bytes ← in_bounds (read_at 0 size key)
    or_library_error (codes "BER decode error") (L.load_public bytes)

  -- `RSAPublicWrapper::getPublicKey(keyout, length)`
  unfoldable pub public_wrapper_key_to : PublicWrapper L → Bytes → ℕ → M O Bytes
  unfolding array_sink
  public_wrapper_key_to key keyout size = array_sink (L.save_public key) keyout size

  -- `RSAPublicWrapper::encrypt(plain, length)`
  unfoldable pub encrypt_at : PublicWrapper L → Bytes → ℕ → M O Bytes
  unfolding draw read_at or_library_error
  encrypt_at key plain size = do
    bytes ← in_bounds (read_at 0 size plain)
    seed ← draw
    or_library_error (codes "message too long for this public key") (L.rsa_encrypt seed key bytes)

  -- `RSAPrivateWrapper(key, length)`
  unfoldable pub private_wrapper_at : Bytes → ℕ → M O (PrivateWrapper L)
  unfolding read_at or_library_error
  private_wrapper_at key size = do
    bytes ← in_bounds (read_at 0 size key)
    or_library_error (codes "BER decode error") (L.load_private bytes)

  -- `RSAPrivateWrapper::getPrivateKey(keyout, length)`
  unfoldable pub private_wrapper_key_to : PrivateWrapper L → Bytes → ℕ → M O Bytes
  unfolding array_sink
  private_wrapper_key_to key keyout size = array_sink (L.save_private key) keyout size

  -- `RSAPrivateWrapper::getPublicKey(keyout, length)`
  unfoldable pub public_key_to : PrivateWrapper L → Bytes → ℕ → M O Bytes
  unfolding array_sink
  public_key_to key keyout size = array_sink (L.save_public (L.public_of key)) keyout size

  -- `RSAPrivateWrapper::decrypt(cipher, length)`
  unfoldable pub decrypt_at : PrivateWrapper L → Bytes → ℕ → M O Bytes
  unfolding read_at or_library_error
  decrypt_at key cipher size = do
    bytes ← in_bounds (read_at 0 size cipher)
    or_library_error (codes "invalid ciphertext") (L.rsa_decrypt key bytes)
