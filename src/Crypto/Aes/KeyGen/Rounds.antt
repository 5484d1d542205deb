-- ===== src/Crypto/Aes/KeyGen/Rounds.antt =====
-- AESWrapper.cpp, `GenerateKey`: the rounds of its loop.
use mathlib.Core.List.{append_assoc, append-nil}
use defensive_systems_open_u.Prelude.{
  ℕ, zero, suc, ◌+◌, ◌*◌, ◌/◌, ◌≤◌, ◌<◌, ◌≡◌, refl, sym, ap, ◌∙◌, arith, none, some, [], ◌∷◌, ◌++◌,
  length, length-append, length-take, length-drop, take, drop, Bytes,
}
use defensive_systems_open_u.Buffer.{write_at, little}
use defensive_systems_open_u.Buffer.Laws.{write_at_middle}
use defensive_systems_open_u.Crypto.Aes.{generate_key_from}

-- The bytes of so many words from the k-th on.
abbrev pub word_bytes : ℕ → (ℕ → ℕ) → ℕ → Bytes
word_bytes zero words k = []
word_bytes (suc n) words k = little 4 (words k) ++ word_bytes n words (k + 1)

take-drop : (n : ℕ) (xs : Bytes) → take n xs ++ drop n xs ≡ xs
take-drop zero xs = refl
take-drop (suc n) [] = refl
take-drop (suc n) (x ∷ xs) = ap (◌∷◌ x) (take-drop n xs)

drop-nil : (m : ℕ) → drop {A = ℕ} m [] ≡ []
drop-nil zero = refl
drop-nil (suc m) = refl

drop-drop : (m j : ℕ) (xs : Bytes) → drop m (drop j xs) ≡ drop (j + m) xs
drop-drop m zero xs = ap (λ (n : ℕ). drop n xs) (omega arith)
drop-drop m (suc j) [] = drop-nil m ∙ sym (drop-nil (suc j + m))
drop-drop m (suc j) (x ∷ xs) =
    drop-drop m j xs ∙ ap (λ (n : ℕ). drop n (x ∷ xs)) {x = suc (j + m)} (omega arith)

pub length-word_bytes : (n : ℕ) (words : ℕ → ℕ) (k : ℕ) → length (word_bytes n words k) ≡ 4 * n
length-word_bytes zero words k = refl
length-word_bytes (suc n) words k = omega (arith, length-word_bytes n words (k + 1))

write_at_short :
    (off : ℕ) (b buffer : Bytes) → length buffer < off + length b → write_at off b buffer ≡ none
unfolding write_at
write_at_short off b buffer short = ground arith

module _ (words : ℕ → ℕ) where
  round :
      (fuel i size : ℕ) (buffer next : Bytes)
      → i < size
      → write_at i (little 4 (words (i / 4))) buffer ≡ some next
      → generate_key_from (suc fuel) words i size buffer
        ≡ generate_key_from fuel words (i + 4) size next
  unfolding generate_key_from
  round fuel i size buffer next lt e = rw e (ground arith)

  stop :
      (fuel i size : ℕ) (buffer : Bytes)
      → size ≤ i
      → generate_key_from (suc fuel) words i size buffer ≡ some buffer
  unfolding generate_key_from
  stop fuel i size buffer le = ground arith

  pub overrun :
      (fuel i size : ℕ) (buffer : Bytes)
      → i < size
      → length buffer < i + 4
      → generate_key_from (suc fuel) words i size buffer ≡ none
  unfolding generate_key_from write_at
  overrun fuel i size buffer lt short = ground arith

  -- One word is stored behind the words that are there.
  store-word :
      (k : ℕ) (before old : Bytes)
      → length before ≡ 4 * k
      → 4 ≤ length old
      → write_at (4 * k) (little 4 (words (4 * k / 4))) (before ++ old)
        ≡ some ((before ++ little 4 (words k)) ++ drop 4 old)
  store-word k before old hb ho =
      ap (λ (j : ℕ). write_at (4 * k) (little 4 (words j)) (before ++ old)) {y = k} (omega arith)
      ∙ ap (λ (t : Bytes). write_at (4 * k) w (before ++ t)) (sym (take-drop 4 old))
      ∙ write_at_middle (4 * k) before (take 4 old) (drop 4 old) w hb
          (omega (arith, length-take {0} 4 old))
      ∙ ap some (sym (append_assoc before w (drop 4 old)))
    where
      w : Bytes
      w = little 4 (words k)

  -- The last round ends at or behind the size: there is room for the words, not for fewer.
  pub fill :
      (fuel n k size : ℕ) (before old : Bytes)
      → length before ≡ 4 * k
      → length old ≡ 4 * n
      → size ≤ 4 * k + 4 * n
      → 4 * k + 4 * n < size + 4
      → n < fuel
      → generate_key_from fuel words (4 * k) size (before ++ old)
        ≡ some (before ++ word_bytes n words k)
  fill zero n k size before old hb ho le gt lt = absurd (omega arith)
  fill (suc fuel) zero k size before [] hb ho le gt lt =
      stop fuel (4 * k) size (before ++ []) (omega arith)
  fill (suc fuel) zero k size before (x ∷ old) hb ho le gt lt = absurd (omega arith)
  fill (suc fuel) (suc n) k size before old hb ho le gt lt =
      round fuel (4 * k) size (before ++ old) next (omega arith)
        (store-word k before old hb (omega arith))
      ∙ (λ x. generate_key_from fuel words (index x) size next)
      ∙ fill fuel n (k + 1) size (before ++ w) (drop 4 old) (omega (arith, length-append before w))
          (omega (arith, length-drop {0} 4 old)) (omega arith) (omega arith) (omega arith)
      ∙ ap some (append_assoc before w (word_bytes n words (k + 1)))
    where
      w : Bytes
      w = little 4 (words k)

      next : Bytes
      next = (before ++ w) ++ drop 4 old

      index : 4 * k + 4 ≡ 4 * (k + 1)
      index = omega arith

  -- So many whole words are stored, one after the other.
  pub advance :
      (fuel n k size : ℕ) (before old : Bytes)
      → length before ≡ 4 * k
      → 4 * n ≤ length old
      → 4 * k + 4 * n ≤ size
      → generate_key_from (n + fuel) words (4 * k) size (before ++ old)
        ≡ generate_key_from fuel words
            (4 * (k + n))
            size
            ((before ++ word_bytes n words k) ++ drop (4 * n) old)
  advance fuel zero k size before old hb ho le =
      (λ i. generate_key_from (fuel_same i) words (index i) size (bytes_same i))
    where
      fuel_same : 0 + fuel ≡ fuel
      fuel_same = omega arith

      index : 4 * k ≡ 4 * (k + 0)
      index = omega arith

      bytes_same : before ++ old ≡ (before ++ []) ++ old
      bytes_same = ap (λ (t : Bytes). t ++ old) (sym (append-nil before))
  advance fuel (suc n) k size before old hb ho le =
      (λ i. generate_key_from (fuel_same i) words (4 * k) size (before ++ old))
      ∙ round (n + fuel) (4 * k) size (before ++ old) _ (omega arith)
          (store-word k before old hb (omega arith))
      ∙ (λ i.
          generate_key_from (n + fuel) words (index i) size
            ((before ++ little 4 (words k)) ++ drop 4 old))
      ∙ advance fuel n (k + 1) size (before ++ little 4 (words k)) (drop 4 old)
          (omega (arith, length-append before (little 4 (words k))))
          (omega (arith, length-drop {0} 4 old)) (omega arith)
      ∙ (λ i. generate_key_from fuel words (last i) size (bytes_same i))
    where
      fuel_same : suc n + fuel ≡ suc (n + fuel)
      fuel_same = omega arith

      index : 4 * k + 4 ≡ 4 * (k + 1)
      index = omega arith

      last : 4 * (k + 1 + n) ≡ 4 * (k + suc n)
      last = omega arith

      bytes_same :
          ((before ++ little 4 (words k)) ++ word_bytes n words (k + 1))
            ++ drop (4 * n) (drop 4 old)
          ≡ (before ++ word_bytes (suc n) words k) ++ drop (4 * suc n) old
      bytes_same =
          ap (λ (t : Bytes). t ++ drop (4 * n) (drop 4 old))
            (append_assoc before (little 4 (words k)) (word_bytes n words (k + 1)))
          ∙ ap (λ (t : Bytes). (before ++ word_bytes (suc n) words k) ++ t)
              (drop-drop (4 * n) 4 old ∙ ap (λ (m : ℕ). drop m old) (omega arith))
