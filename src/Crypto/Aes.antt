-- ===== src/Crypto/Aes.antt =====
-- AESWrapper.cpp and AESWrapper.h over Crypto++.
pub mod KeyGen
use defensive_systems_open_u.Prelude.{
  ℕ, zero, suc, ◌+◌, ◌-◌, ◌/◌, Option, none, some, ◌++◌, Bytes, codes, ltb, ◌==◌, if◌then◌else◌,
}
use defensive_systems_open_u.Buffer.{write_at, read_at, little}
use defensive_systems_open_u.Runtime.Os.{Os}
use defensive_systems_open_u.Runtime.Library.{Library}
use defensive_systems_open_u.Runtime.Exec.{
  length_error, library_error, ok, pure, throw, in_bounds, continue, ◌>>=◌,
}
use defensive_systems_open_u.Runtime.World.{M}

abbrev pub default_key_length : ℕ
default_key_length = 16

abbrev pub block_size : ℕ
block_size = 16

-- `AESWrapper::GenerateKey`: round `k` stores the word `words k` that `_rdrand32_step` gives, four
-- bytes from index `i` on, as long as `i < length`. Each round adds four, so `length` rounds and a
-- last test are enough fuel; `none` is a write out of bounds.
unfoldable pub generate_key_from : ℕ → (ℕ → ℕ) → ℕ → ℕ → Bytes → Option Bytes
unfolding write_at
generate_key_from zero words i size buffer = none
generate_key_from (suc fuel) words i size buffer =
    let more : Option Bytes = elim (write_at i (little 4 (words (i / 4))) buffer) [
      | none ↦ none
      | some next ↦ generate_key_from fuel words (i + 4) size next
    ] in
    if ltb i size then more else some buffer

unfoldable pub generate_key : (ℕ → ℕ) → Bytes → ℕ → Option Bytes
unfolding generate_key_from
generate_key words buffer size = generate_key_from (suc size) words 0 size buffer

-- An `AESWrapper` is its key.
pub record AesWrapper : Type 0 where
  pub key : Bytes

-- `getKey()`
unfoldable pub get_key : AesWrapper → Bytes
get_key a = a.key

module _ {O : Os} where
  -- A fresh seed from the system.
  unfoldable pub draw : M O ℕ
  draw w = let (seed, os') = O.entropy w.os in (ok seed, record w { os = os' })

  -- An exception of the library.
  unfoldable pub or_library_error : {A : Type 0} → Bytes → Option A → M O A
  or_library_error text none = throw library_error text
  or_library_error text (some a) = pure a

  -- `AESWrapper()`, over the words that the processor gives.
  unfoldable pub aes_wrapper_random : (ℕ → ℕ) → M O AesWrapper
  unfolding generate_key
  aes_wrapper_random words w =
      continue (λ bytes. pure (record { key = bytes }))
        (in_bounds (generate_key words (O.garbage default_key_length w.os) default_key_length) w)

  -- `AESWrapper(key, length)`
  unfoldable pub aes_wrapper : Bytes → ℕ → M O AesWrapper
  unfolding read_at
  aes_wrapper key size =
      if size == default_key_length
      then (do bytes ← in_bounds (read_at 0 size key); pure (record { key = bytes }))
      else throw length_error (codes "key length must be 16 bytes")

module _ {O : Os} (L : Library) where
  -- `AESWrapper::encrypt(plain, length)`
  unfoldable pub aes_encrypt : AesWrapper → Bytes → ℕ → M O Bytes
  unfolding draw read_at
  aes_encrypt a plain size = do
    seed ← draw
    let iv = L.generate_block seed block_size
    text ← in_bounds (read_at 0 size plain)
    pure (iv ++ L.cbc_encrypt a.key iv text)

  -- `AESWrapper::decrypt(cipher, length)`
  unfoldable pub aes_decrypt : AesWrapper → Bytes → ℕ → M O Bytes
  unfolding read_at or_library_error
  aes_decrypt a cipher size =
      if ltb size block_size
      then throw length_error (codes "cipher length too short to contain an IV")
      else (do
        iv ← in_bounds (read_at 0 block_size cipher)
        text ← in_bounds (read_at block_size (size - block_size) cipher)
        or_library_error (codes "StreamTransformationFilter") (L.cbc_decrypt a.key iv text))
