-- ===== src/Crypto/Rsa.antt =====
-- RSAWrapper.cpp, RSAWrapper.h and Base64Wrapper.cpp over Crypto++. A wrapper is its key.
pub mod Pointers
use defensive_systems_open_u.Prelude.{ℕ, [], ◌∷◌, ◌++◌, Bytes, codes, newline}
use defensive_systems_open_u.Crypto.Aes.{draw, or_library_error}
use defensive_systems_open_u.Runtime.Os.{Os}
use defensive_systems_open_u.Runtime.Library.{Library}
use defensive_systems_open_u.Runtime.Exec.{pure, ◌>>=◌}
use defensive_systems_open_u.Runtime.World.{M}

-- `RSAPublicWrapper` and `RSAPrivateWrapper`: the random pool is the system's.
abbrev pub PublicWrapper : Library → Type 0
PublicWrapper L = L.PublicKey

abbrev pub PrivateWrapper : Library → Type 0
PrivateWrapper L = L.PrivateKey

-- `RSAPrivateWrapper::BITS`
abbrev pub bits : ℕ
bits = 1024

-- `Base64Wrapper::encode` and `decode`.
unfoldable pub encode : Library → Bytes → Bytes
encode L s = L.base64_encode s

unfoldable pub decode : Library → Bytes → Bytes
decode L s = L.base64_decode s

-- `RSAPublicWrapper::getPublicKey()` and `RSAPrivateWrapper::getPrivateKey()`: the saved key.
unfoldable pub public_wrapper_key : (L : Library) → PublicWrapper L → Bytes
public_wrapper_key L key = L.save_public key

unfoldable pub private_wrapper_key : (L : Library) → PrivateWrapper L → Bytes
private_wrapper_key L key = L.save_private key

-- `RSAPrivateWrapper::getPublicKey()`: the encoded public key between two lines of text.
unfoldable pub public_key_text : (L : Library) → PrivateWrapper L → Bytes
public_key_text L key =
    codes "-----BEGIN PUBLIC KEY-----"
    ++ (newline
        ∷ (L.base64_encode (L.save_public (L.public_of key))
            ++ (newline ∷ (codes "-----END PUBLIC KEY-----" ++ (newline ∷ [])))))

module _ {O : Os} (L : Library) where
  -- `RSAPublicWrapper(key)`
  unfoldable pub public_wrapper : Bytes → M O (PublicWrapper L)
  unfolding or_library_error
  public_wrapper key = or_library_error (codes "BER decode error") (L.load_public key)

  -- `RSAPrivateWrapper()`
  unfoldable pub private_wrapper_new : M O (PrivateWrapper L)
  unfolding draw
  private_wrapper_new = do seed ← draw; pure (L.initialize seed bits)

  -- `RSAPrivateWrapper(key)`
  unfoldable pub private_wrapper : Bytes → M O (PrivateWrapper L)
  unfolding or_library_error
  private_wrapper key = or_library_error (codes "BER decode error") (L.load_private key)

  -- `RSAPublicWrapper::encrypt(plain)`
  unfoldable pub encrypt : PublicWrapper L → Bytes → M O Bytes
  unfolding draw or_library_error
  encrypt key plain = do
    seed ← draw
    or_library_error (codes "message too long for this public key") (L.rsa_encrypt seed key plain)

  -- `RSAPrivateWrapper::decrypt(cipher)`
  unfoldable pub decrypt : PrivateWrapper L → Bytes → M O Bytes
  unfolding or_library_error
  decrypt key cipher = or_library_error (codes "invalid ciphertext") (L.rsa_decrypt key cipher)
