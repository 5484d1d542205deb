-- ===== src/Checksum/Lookup.antt =====
-- The table against the division: every word of `crctab`, and one step of the table-driven loop.
use defensive_systems_open_u.Prelude.{
  ℕ, zero, suc, ◌+◌, ◌*◌, ◌%◌, ◌^◌, ◌<◌, bit_xor, ◌≡◌, refl, sym, ap, ap₂, ◌∙◌, arith, Option, some,
  List, [], ◌∷◌, map, get_elem?,
}
use defensive_systems_open_u.Prelude.Bits.{xor-lt, xor_comm, xor_assoc, xor_disjoint, xor-shift}
use defensive_systems_open_u.Checksum.{◌>>=◌, top_byte, advance}
use defensive_systems_open_u.Checksum.Cksum.{byte_shift, byte_step, iterate}
use defensive_systems_open_u.Checksum.Linear.{byte_shift-xor, byte_shift_low}
use defensive_systems_open_u.Checksum.Table.{crctab, row0, row1, row2, row3, row4, row5, row6, row7}

-- `count` numbers from `from` on.
abbrev range_from : ℕ → ℕ → List ℕ
range_from zero from = []
range_from (suc count) from = from ∷ range_from count (suc from)

row0-map : row0 ≡ map (λ i. byte_shift (i * 2 ^ 24)) (range_from 256 0)
unfolding row0 byte_shift
row0-map = refl

row1-map : row1 ≡ map byte_shift row0
unfolding row0 row1 byte_shift
row1-map = refl

row2-map : row2 ≡ map byte_shift row1
unfolding row1 row2 byte_shift
row2-map = refl

row3-map : row3 ≡ map byte_shift row2
unfolding row2 row3 byte_shift
row3-map = refl

row4-map : row4 ≡ map byte_shift row3
unfolding row3 row4 byte_shift
row4-map = refl

row5-map : row5 ≡ map byte_shift row4
unfolding row4 row5 byte_shift
row5-map = refl

row6-map : row6 ≡ map byte_shift row5
unfolding row5 row6 byte_shift
row6-map = refl

row7-map : row7 ≡ map byte_shift row6
unfolding row6 row7 byte_shift
row7-map = refl

get_elem?-range_from :
    (f : ℕ → ℕ) (count from i : ℕ)
    → i < count
    → get_elem? (map f (range_from count from)) i ≡ some (f (from + i))
get_elem?-range_from f zero from i h = absurd (omega arith)
get_elem?-range_from f (suc count) from zero h = ap (λ (t : ℕ). some (f t)) (omega arith)
get_elem?-range_from f (suc count) from (suc i) h =
    get_elem?-range_from f count (suc from) i (omega arith)
    ∙ ap (λ (t : ℕ). some (f t)) (omega arith)

get_elem?-map :
    (f : ℕ → ℕ) (xs : List ℕ) (i : ℕ) {x : ℕ}
    → get_elem? xs i ≡ some x
    → get_elem? (map f xs) i ≡ some (f x)
get_elem?-map f [] i h = cc
get_elem?-map f (y ∷ xs) zero h = cc
get_elem?-map f (y ∷ xs) (suc i) h = get_elem?-map f xs i h

get_elem?-row0 : (i : ℕ) → i < 256 → get_elem? row0 i ≡ some (byte_shift (i * 2 ^ 24))
get_elem?-row0 i h = rw row0-map (
    get_elem?-range_from (λ j. byte_shift (j * 2 ^ 24)) 256 0 i h
    ∙ ap (λ (t : ℕ). some (byte_shift (t * 2 ^ 24))) (omega arith))

-- `crctab[k][i]`
abbrev pub word_at : ℕ → ℕ → Option ℕ
word_at k i = get_elem? crctab k >>= λ row. get_elem? row i

word_at-suc :
    (k i : ℕ) {x : ℕ} → k < 7 → word_at k i ≡ some x → word_at (suc k) i ≡ some (byte_shift x)
unfolding crctab
word_at-suc zero i lt h = rw row1-map (get_elem?-map byte_shift row0 i h)
word_at-suc (suc zero) i lt h = rw row2-map (get_elem?-map byte_shift row1 i h)
word_at-suc (suc (suc zero)) i lt h = rw row3-map (get_elem?-map byte_shift row2 i h)
word_at-suc (suc (suc (suc zero))) i lt h = rw row4-map (get_elem?-map byte_shift row3 i h)
word_at-suc (suc (suc (suc (suc zero)))) i lt h = rw row5-map (get_elem?-map byte_shift row4 i h)
word_at-suc (suc (suc (suc (suc (suc zero))))) i k h =
    rw row6-map (get_elem?-map byte_shift row5 i h)
word_at-suc (suc (suc (suc (suc (suc (suc zero)))))) i k h =
    rw row7-map (get_elem?-map byte_shift row6 i h)
word_at-suc (suc (suc (suc (suc (suc (suc (suc k))))))) i lt h = absurd (omega arith)

iterate-suc : (n x : ℕ) → iterate (suc n) byte_shift x ≡ byte_shift (iterate n byte_shift x)
iterate-suc zero x = refl
iterate-suc (suc n) x = iterate-suc n (byte_shift x)

-- Every word of the table: `crctab[k][i]` is what is left of the register when the byte `i` at its
-- top has been followed by `k` zero bytes.
pub crctab_lem :
    (k i : ℕ) → k < 8 → i < 256 → word_at k i ≡ some (iterate (suc k) byte_shift (i * 2 ^ 24))
crctab_lem zero i hk hi = unfold crctab in get_elem?-row0 i hi
crctab_lem (suc k) i hk hi =
    word_at-suc k i (omega arith) (crctab_lem k i (omega arith) hi)
    ∙ ap some (sym (iterate-suc (suc k) (i * 2 ^ 24)))

register_parts :
    (s c : ℕ)
    → s < 2 ^ 32
    → bit_xor s (c * 2 ^ 24) ≡ bit_xor (s % 2 ^ 24) (bit_xor (top_byte s) c * 2 ^ 24)
register_parts s c h =
    ap (λ (t : ℕ). bit_xor t (c * 2 ^ 24)) whole
    ∙ xor_assoc (s % 2 ^ 24) (top_byte s * 2 ^ 24) (c * 2 ^ 24)
    ∙ ap (bit_xor (s % 2 ^ 24)) (xor-shift 24 (top_byte s) c)
  where
    whole : s ≡ bit_xor (s % 2 ^ 24) (top_byte s * 2 ^ 24)
    whole = omega (
      arith,
      xor_comm (s % 2 ^ 24) (top_byte s * 2 ^ 24),
      xor_disjoint 24 (top_byte s) (s % 2 ^ 24) (omega arith),
    )

pub top_byte-lt : (s c : ℕ) → s < 2 ^ 32 → c < 256 → bit_xor (top_byte s) c < 256
top_byte-lt s c hs hc = xor-lt 8 (top_byte s) c (omega arith) hc

-- One lookup does eight bits of the division.
pub advance_lem :
    (s c : ℕ) → s < 2 ^ 32 → c < 256 → advance s (bit_xor (top_byte s) c) ≡ some (byte_step s c)
unfolding advance byte_step
advance_lem s c hs hc = rw (get_elem?-row0 i (top_byte-lt s c hs hc)) (
    ap some (
      ap₂ bit_xor (omega (arith, byte_shift_low (s % 2 ^ 24) (omega arith))) refl
      ∙ sym (
          byte_shift-xor (s % 2 ^ 24) (i * 2 ^ 24) (omega arith)
            (omega (arith, top_byte-lt s c hs hc)))
      ∙ ap byte_shift (sym (register_parts s c hs))))
  where
    i : ℕ
    i = bit_xor (top_byte s) c
