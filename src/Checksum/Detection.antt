-- ===== src/Checksum/Detection.antt =====
-- checksum.cpp, `memcrc` on two buffers that differ in a few consecutive bytes.
use mathlib.Core.List.{foldl-append}
use mathlib.Core.Option.{some-injective}
use defensive_systems_open_u.Prelude.{
  ℕ, ◌+◌, ◌-◌, ◌*◌, ◌/◌, ◌%◌, ◌^◌, ◌≤◌, ◌<◌, bit_xor, ◌≡◌, ◌≢◌, refl, sym, ap, ap₂, ◌∙◌, arith,
  some, [], ◌∷◌, ◌++◌, length, length-append, take, Bytes, IsBytes, IsBytes-append,
}
use defensive_systems_open_u.Prelude.Bits.{
  xor-lt, xor_zero, xor_assoc, xor_injective, xor_comm, xor_disjoint,
}
use defensive_systems_open_u.Checksum.{int_max, memcrc}
use defensive_systems_open_u.Checksum.Cksum.{
  byte_shift, byte_step, iterate, remainder, octets, cksum,
}
use defensive_systems_open_u.Checksum.Linear.{byte_shift-xor, byte_shift_low}
use defensive_systems_open_u.Checksum.Memcrc.{
  remainder-lt, byte_step-lt, memcrc-cksum, octets-IsBytes, take-length, cksum-eq,
}
use defensive_systems_open_u.Checksum.Injective.{
  iterate-injective, byte_shift-injective, remainder-injective,
}

-- Up to four bytes as a word, the first at the top.
abbrev word : Bytes → ℕ
word [] = 0
word (c ∷ b) = c * 2 ^ 24 + word b / 256

word-lt : (b : Bytes) → IsBytes b → word b < 2 ^ 32
word-lt [] h = omega arith
word-lt (c ∷ b) (hc, h) = omega (arith, word-lt b h)

-- The places that no byte has filled are zero.
word-mod : (b : Bytes) → length b ≤ 3 → word b % 256 ≡ 0
word-mod [] h = refl
word-mod (c ∷ []) h = omega arith
word-mod (c ∷ d ∷ []) h = omega arith
word-mod (c ∷ d ∷ e ∷ []) h = omega arith
word-mod (c ∷ d ∷ e ∷ f ∷ b) h = absurd (omega arith)

word-injective :
    (xs ys : Bytes)
    → IsBytes xs
    → IsBytes ys
    → length xs ≡ length ys
    → length xs ≤ 4
    → word xs ≡ word ys
    → xs ≡ ys
word-injective [] [] hx hy e l w = refl
word-injective [] (y ∷ ys) hx hy e l w = absurd (omega arith)
word-injective (x ∷ xs) [] hx hy e l w = absurd (omega arith)
word-injective (x ∷ xs) (y ∷ ys) (hx, hxs) (hy, hys) e l w =
    ap₂ ◌∷◌ (omega (arith, word-lt xs hxs, word-lt ys hys))
      (word-injective xs ys hxs hys (omega arith) (omega arith) rest)
  where
    rest : word xs ≡ word ys
    rest = omega (
      arith,
      word-lt xs hxs,
      word-lt ys hys,
      word-mod xs (omega arith),
      word-mod ys (omega arith),
    )

remainder-cons : (s c : ℕ) (b : Bytes) → remainder s (c ∷ b) ≡ remainder (byte_step s c) b
unfolding remainder
remainder-cons s c b = refl

-- The register after up to four bytes is their word, added in at the start and shifted through.
remainder-word :
    (b : Bytes) (s : ℕ)
    → IsBytes b
    → length b ≤ 4
    → s < 2 ^ 32
    → remainder s b ≡ iterate (length b) byte_shift (bit_xor s (word b))
remainder-word [] s h l hs = unfold remainder in sym (xor_zero s)
remainder-word (c ∷ b) s (hc, h) l hs =
    remainder-cons s c b
    ∙ remainder-word b (byte_step s c) h (omega arith) (byte_step-lt s c hs hc)
    ∙ ap (iterate (length b) byte_shift) together
  where
    v : ℕ
    v = word b / 256

    v-lt : v < 2 ^ 24
    v-lt = omega (arith, word-lt b h)

    top : bit_xor s (c * 2 ^ 24) < 2 ^ 32
    top = xor-lt 32 s (c * 2 ^ 24) hs (omega arith)

    low : word b ≡ byte_shift v
    low = omega (arith, byte_shift_low v v-lt, word-mod b (omega arith))

    together : bit_xor (byte_step s c) (word b) ≡ byte_shift (bit_xor s (c * 2 ^ 24 + v))
    together =
        ap₂ bit_xor {x = byte_step s c} {y = byte_shift (bit_xor s (c * 2 ^ 24))}
          (unfold byte_step in refl) low
        ∙ sym (byte_shift-xor (bit_xor s (c * 2 ^ 24)) v top (omega (arith, v-lt)))
        ∙ ap byte_shift (xor_assoc s (c * 2 ^ 24) v ∙ ap (bit_xor s) (xor_disjoint 24 c v v-lt))

remainder_burst :
    (xs ys : Bytes) (s : ℕ)
    → IsBytes xs
    → IsBytes ys
    → length xs ≡ length ys
    → length xs ≤ 4
    → s < 2 ^ 32
    → remainder s xs ≡ remainder s ys
    → xs ≡ ys
remainder_burst xs ys s hx hy e l hs r =
    word-injective xs ys hx hy e l
      (cancel (iterate-injective byte_shift byte_shift-injective (length xs) _ _ same_run))
  where
    same_run :
        iterate (length xs) byte_shift (bit_xor s (word xs))
        ≡ iterate (length xs) byte_shift (bit_xor s (word ys))
    same_run =
        sym (remainder-word xs s hx l hs)
        ∙ r
        ∙ remainder-word ys s hy (omega arith) hs
        ∙ ap (λ (n : ℕ). iterate n byte_shift (bit_xor s (word ys))) (sym e)

    cancel : bit_xor s (word xs) ≡ bit_xor s (word ys) → word xs ≡ word ys
    cancel h = xor_injective (word xs) (word ys) s (xor_comm (word xs) s ∙ h ∙ xor_comm s (word ys))

remainder-append : (s : ℕ) (xs ys : Bytes) → remainder s (xs ++ ys) ≡ remainder (remainder s xs) ys
unfolding remainder
remainder-append s xs ys = rw foldl-append refl

memcrc_whole :
    (b : Bytes) (n : ℕ)
    → IsBytes b
    → length b ≡ n
    → n ≤ int_max
    → memcrc b n ≡ some (2 ^ 32 - 1 - remainder (remainder 0 b) (octets 8 n))
memcrc_whole b n h e fits =
    memcrc-cksum b n h (omega arith) fits
    ∙ ap some (ap (λ (t : ℕ). cksum (take t b)) (sym e) ∙ ap cksum (take-length b) ∙ cksum-eq b n e)

memcrc-injective :
    (pre xs ys post : Bytes)
    → IsBytes pre
    → IsBytes xs
    → IsBytes ys
    → IsBytes post
    → length xs ≡ length ys
    → length xs ≤ 4
    → length (pre ++ xs ++ post) ≤ int_max
    → memcrc (pre ++ xs ++ post) (length (pre ++ xs ++ post))
      ≡ memcrc (pre ++ ys ++ post) (length (pre ++ ys ++ post))
    → xs ≡ ys
memcrc-injective pre xs ys post hp hx hy hq e four fits same =
    remainder_burst xs ys (remainder 0 pre) hx hy e four (remainder-lt 0 pre (omega arith) hp)
      (remainder-injective post _ _ (sym (parts xs) ∙ registers ∙ parts ys))
  where
    n : ℕ
    n = length (pre ++ xs ++ post)

    whole : Bytes → Bytes
    whole zs = pre ++ zs ++ post

    parts : (zs : Bytes) → remainder 0 (whole zs) ≡ remainder (remainder (remainder 0 pre) zs) post
    parts zs =
        remainder-append 0 (pre ++ zs) post
        ∙ ap (λ (t : ℕ). remainder t post) (remainder-append 0 pre zs)

    whole-IsBytes : (zs : Bytes) → IsBytes zs → IsBytes (whole zs)
    whole-IsBytes zs h = IsBytes-append (pre ++ zs) post (IsBytes-append pre zs hp h) hq

    same_length : length (whole ys) ≡ n
    same_length = omega (
      arith,
      length-append (pre ++ xs) post,
      length-append (pre ++ ys) post,
      length-append pre xs,
      length-append pre ys,
    )

    final : Bytes → ℕ
    final zs = remainder (remainder 0 (whole zs)) (octets 8 n)

    final-lt : (zs : Bytes) → IsBytes zs → final zs < 2 ^ 32
    final-lt zs h =
        remainder-lt _ (octets 8 n) (remainder-lt 0 (whole zs) (omega arith) (whole-IsBytes zs h))
          (octets-IsBytes 8 n)

    complements : some (2 ^ 32 - 1 - final xs) ≡ some (2 ^ 32 - 1 - final ys)
    complements =
        sym (memcrc_whole (whole xs) n (whole-IsBytes xs hx) refl fits)
        ∙ same
        ∙ ap (memcrc (whole ys)) same_length
        ∙ memcrc_whole (whole ys) n (whole-IsBytes ys hy) same_length fits

    registers : remainder 0 (whole xs) ≡ remainder 0 (whole ys)
    registers =
        remainder-injective (octets 8 n) _ _
          (omega (arith, final-lt xs hx, final-lt ys hy, some-injective _ _ complements))

-- Two files of the same length, which an `int` can count, that differ, and differ only within four
-- consecutive bytes, have different checksums.
pub memcrc_burst :
    (pre xs ys post : Bytes)
    → IsBytes pre
    → IsBytes xs
    → IsBytes ys
    → IsBytes post
    → length xs ≡ length ys
    → length xs ≤ 4
    → length (pre ++ xs ++ post) ≤ int_max
    → xs ≢ ys
    → memcrc (pre ++ xs ++ post) (length (pre ++ xs ++ post))
      ≢ memcrc (pre ++ ys ++ post) (length (pre ++ ys ++ post))
memcrc_burst pre xs ys post hp hx hy hq e four fits differ same =
    differ (memcrc-injective pre xs ys post hp hx hy hq e four fits same)
