-- ===== src/Checksum/Linear.antt =====
-- The division steps over exclusive or, and on registers whose top bits are clear.
use defensive_systems_open_u.Prelude.{
  ℕ, zero, suc, ◌-◌, ◌*◌, ◌/◌, ◌%◌, ◌^◌, ◌≤◌, ◌<◌, bit_xor, ◌≡◌, refl, sym, ap, ap₂, ◌∙◌, arith,
}
use native.Mathlib.Decide.{dec_lt}
use native.Mathlib.Nat.{pow-suc, one-le-pow}
use defensive_systems_open_u.Prelude.Bits.{xor-lt, xor_zero, xor_parts, xor-shift, xor_interchange}
use defensive_systems_open_u.Checksum.Cksum.{polynomial, bit_step, byte_shift, iterate}

pub bit_step-lt : (x : ℕ) → x < 2 ^ 32 → bit_step x < 2 ^ 32
unfolding bit_step
bit_step-lt x h = ground (arith, xor-lt 32 (x * 2 - 2 ^ 32) polynomial)

pub bit_step_low : (x : ℕ) → x < 2 ^ 31 → bit_step x ≡ x * 2
unfolding bit_step
bit_step_low x h = ground arith

pub bit_step_high : (x : ℕ) → 2 ^ 31 ≤ x → bit_step x ≡ bit_xor (x * 2 - 2 ^ 32) polynomial
unfolding bit_step
bit_step_high x h = ground arith

-- The step without a test: the top bit times the polynomial.
pub bit_step-eq :
    (x : ℕ) → x < 2 ^ 32 → bit_step x ≡ bit_xor (x * 2 % 2 ^ 32) (x / 2 ^ 31 * polynomial)
bit_step-eq x h = elim (dec_lt x (2 ^ 31)) [
  | yes p ↦
      bit_step_low x p
      ∙ sym (ap₂ bit_xor {x = x * 2 % 2 ^ 32} (omega arith) (omega arith) ∙ xor_zero (x * 2))
  | no p ↦ bit_step_high x (omega arith) ∙ sym (ap₂ bit_xor (omega arith) (omega arith))
]

polynomial-xor :
    (q r : ℕ) → q < 2 → r < 2 → bit_xor q r * polynomial ≡ bit_xor (q * polynomial) (r * polynomial)
polynomial-xor zero zero p q = refl
polynomial-xor zero (suc zero) p q = refl
polynomial-xor zero (suc (suc r)) p q = absurd (omega arith)
polynomial-xor (suc zero) zero p q = refl
polynomial-xor (suc zero) (suc zero) p q = refl
polynomial-xor (suc zero) (suc (suc r)) p q = absurd (omega arith)
polynomial-xor (suc (suc q)) r p h = absurd (omega arith)

double-xor : (x y : ℕ) → bit_xor x y * 2 % 2 ^ 32 ≡ bit_xor (x * 2 % 2 ^ 32) (y * 2 % 2 ^ 32)
double-xor x y =
    ap (λ (t : ℕ). t % 2 ^ 32) (sym (xor-shift 1 x y)) ∙ (xor_parts 32 (x * 2) (y * 2)).0

pub bit_step-xor :
    (x y : ℕ) → x < 2 ^ 32 → y < 2 ^ 32 → bit_step (bit_xor x y) ≡ bit_xor (bit_step x) (bit_step y)
bit_step-xor x y hx hy =
    bit_step-eq (bit_xor x y) (xor-lt 32 x y hx hy)
    ∙ ap₂ bit_xor (double-xor x y) (
        ap (λ (t : ℕ). t * polynomial) (xor_parts 31 x y).1
        ∙ polynomial-xor (x / 2 ^ 31) (y / 2 ^ 31) (omega arith) (omega arith))
    ∙ xor_interchange (x * 2 % 2 ^ 32) (y * 2 % 2 ^ 32) (x / 2 ^ 31 * polynomial)
        (y / 2 ^ 31 * polynomial)
    ∙ ap₂ bit_xor (sym (bit_step-eq x hx)) (sym (bit_step-eq y hy))

pub iterate-lt : (n x : ℕ) → x < 2 ^ 32 → iterate n bit_step x < 2 ^ 32
iterate-lt zero x h = h
iterate-lt (suc n) x h = iterate-lt n (bit_step x) (bit_step-lt x h)

iterate-xor :
    (n x y : ℕ)
    → x < 2 ^ 32
    → y < 2 ^ 32
    → iterate n bit_step (bit_xor x y) ≡ bit_xor (iterate n bit_step x) (iterate n bit_step y)
iterate-xor zero x y hx hy = refl
iterate-xor (suc n) x y hx hy =
    ap (iterate n bit_step) (bit_step-xor x y hx hy)
    ∙ iterate-xor n (bit_step x) (bit_step y) (bit_step-lt x hx) (bit_step-lt y hy)

pub byte_shift-lt : (x : ℕ) → x < 2 ^ 32 → byte_shift x < 2 ^ 32
unfolding byte_shift
byte_shift-lt x h = iterate-lt 8 x h

pub byte_shift-xor :
    (x y : ℕ)
    → x < 2 ^ 32
    → y < 2 ^ 32
    → byte_shift (bit_xor x y) ≡ bit_xor (byte_shift x) (byte_shift y)
unfolding byte_shift
byte_shift-xor x y hx hy = iterate-xor 8 x y hx hy

doubled : (n x : ℕ) → x * 2 ^ suc n ≡ x * 2 * 2 ^ n
doubled n x = omega (arith, ap (λ (t : ℕ). x * t) (pow-suc 2 n))

le-shifted : (n x : ℕ) → x ≤ x * 2 ^ n
le-shifted n x = grind (arith, one-le-pow n 2 (omega arith))

iterate_low : (n x : ℕ) → x * 2 ^ n < 2 ^ 32 → iterate n bit_step x ≡ x * 2 ^ n
iterate_low zero x h = omega arith
iterate_low (suc n) x h =
    ap (iterate n bit_step) (bit_step_low x (omega (arith, doubled n x, le-shifted n (x * 2))))
    ∙ iterate_low n (x * 2) (omega (arith, doubled n x))
    ∙ sym (doubled n x)

-- With the top byte clear nothing falls out: a plain shift.
pub byte_shift_low : (x : ℕ) → x < 2 ^ 24 → byte_shift x ≡ x * 2 ^ 8
unfolding byte_shift
byte_shift_low x h = iterate_low 8 x (omega arith)
