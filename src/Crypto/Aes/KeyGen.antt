-- ===== src/Crypto/Aes/KeyGen.antt =====
-- AESWrapper.cpp, `GenerateKey`: its buffer and its bounds.
pub mod Rounds
use defensive_systems_open_u.Prelude.{
  ℕ, suc, ◌+◌, ◌-◌, ◌*◌, ◌≤◌, ◌<◌, ◌≡◌, refl, ◌∙◌, arith, none, some, [], ◌++◌, length,
  length-append, length-drop, drop, Bytes,
}
use defensive_systems_open_u.Crypto.Aes.{generate_key_from, generate_key}
use defensive_systems_open_u.Crypto.Aes.KeyGen.Rounds.{
  word_bytes, length-word_bytes, fill, advance, overrun,
}

module _ (words : ℕ → ℕ) where
  -- A buffer whose size is a multiple of four is filled with the processor's words, in order.
  pub generate_key_lem :
      (buffer : Bytes) (n : ℕ)
      → length buffer ≡ 4 * n
      → generate_key words buffer (4 * n) ≡ some (word_bytes n words 0)
  unfolding generate_key
  generate_key_lem buffer n h =
      fill words (suc (4 * n)) n 0 (4 * n) [] buffer refl h (omega arith) (omega arith)
        (omega arith)

  -- The state of the buffer after the whole words.
  abbrev after_words : ℕ → Bytes → Bytes
  after_words n buffer = word_bytes n words 0 ++ drop (4 * n) buffer

  reaches :
      (buffer : Bytes) (n : ℕ)
      → 4 * n < length buffer
      → generate_key_from (suc (length buffer)) words 0 (length buffer) buffer
        ≡ generate_key_from
            (suc (length buffer) - n)
            words
            (4 * n)
            (length buffer)
            (after_words n buffer)
  reaches buffer n h =
      (λ i. generate_key_from (fuel i) words 0 (length buffer) buffer)
      ∙ advance words (suc (length buffer) - n) n 0 (length buffer) [] buffer refl (omega arith)
          (omega arith)
      ∙ (λ i.
          generate_key_from (suc (length buffer) - n) words (index i) (length buffer)
            (after_words n buffer))
    where
      fuel : suc (length buffer) ≡ n + (suc (length buffer) - n)
      fuel = omega arith

      index : 4 * (0 + n) ≡ 4 * n
      index = omega arith

  -- With a size that is no multiple of four, whole words are stored all the same: where memory follows
  -- the buffer, the last word is written over its end, so that the words fill the buffer and the
  -- memory up to the next multiple of four; where none follows, that store is out of bounds.
  pub generate_key_overrun :
      (buffer rest : Bytes) (n : ℕ)
      → 4 * n < length buffer
      → length buffer < 4 * n + 4
      → length buffer + length rest ≡ 4 * n + 4
      → (generate_key words (buffer ++ rest) (length buffer) ≡ some (word_bytes (suc n) words 0))
        × (generate_key words buffer (length buffer) ≡ none)
  unfolding generate_key
  generate_key_overrun buffer rest n some_left few_left room = (
    fill words (suc (length buffer)) (suc n) 0 (length buffer) [] (buffer ++ rest) refl
        (omega (arith, length-append buffer rest)) (omega arith) (omega arith) (omega arith),
    reached ∙ ended,
  )
    where
      now : Bytes
      now = after_words n buffer

      size : length now ≡ length buffer
      size = omega (
        arith,
        length-append (word_bytes n words 0) (drop (4 * n) buffer),
        length-word_bytes n words 0,
        length-drop {0} (4 * n) buffer,
      )

      short : length now < 4 * n + 4
      short = omega (arith, size)

      reached :
          generate_key_from (suc (length buffer)) words 0 (length buffer) buffer
          ≡ generate_key_from (suc (length buffer) - n) words (4 * n) (length buffer) now
      reached = reaches buffer n some_left

      ended : generate_key_from (suc (length buffer) - n) words (4 * n) (length buffer) now ≡ none
      ended =
          (λ i. generate_key_from (fuel i) words (4 * n) (length buffer) now)
          ∙ overrun words (length buffer - n) (4 * n) (length buffer) now some_left short
        where
          fuel : suc (length buffer) - n ≡ suc (length buffer - n)
          fuel = omega arith
