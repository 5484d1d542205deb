-- ===== src/Checksum/Injective.antt =====
-- The steps of the division that `memcrc` does, on registers that differ.
use native.Mathlib.Decide.{dec_lt}
use defensive_systems_open_u.Prelude.{
  ℕ, zero, suc, ◌-◌, ◌*◌, ◌%◌, ◌^◌, ◌≤◌, ◌<◌, ◌≡◌, sym, ◌∙◌, arith, [], ◌∷◌, Bytes,
}
use defensive_systems_open_u.Prelude.Bits.{xor_step, xor_injective}
use defensive_systems_open_u.Checksum.Cksum.{
  polynomial, bit_step, byte_shift, byte_step, iterate, remainder,
}
use defensive_systems_open_u.Checksum.Linear.{bit_step_low, bit_step_high}

bit_step_even : (x : ℕ) → x < 2 ^ 31 → bit_step x % 2 ≡ 0
bit_step_even x h = omega (arith, bit_step_low x h)

bit_step_odd : (x : ℕ) → 2 ^ 31 ≤ x → bit_step x % 2 ≡ 1
bit_step_odd x h = omega (arith, bit_step_high x h, xor_step (x * 2 - 2 ^ 32) polynomial)

bit_step-injective : (x y : ℕ) → bit_step x ≡ bit_step y → x ≡ y
bit_step-injective x y e = elim (dec_lt x (2 ^ 31)) [
  | yes p ↦ elim (dec_lt y (2 ^ 31)) [
    | yes q ↦ omega (arith, bit_step_low x p, bit_step_low y q)
    | no q ↦ absurd (omega (arith, bit_step_even x p, bit_step_odd y (omega arith)))
  ]
  | no p ↦ elim (dec_lt y (2 ^ 31)) [
    | yes q ↦ absurd (omega (arith, bit_step_even y q, bit_step_odd x (omega arith)))
    | no q ↦ omega (
      arith,
      xor_injective (x * 2 - 2 ^ 32) (y * 2 - 2 ^ 32) polynomial
          (sym (bit_step_high x (omega arith)) ∙ e ∙ bit_step_high y (omega arith)),
    )
  ]
]

pub iterate-injective :
    (f : ℕ → ℕ)
    → ((x y : ℕ) → f x ≡ f y → x ≡ y)
    → (n x y : ℕ) → iterate n f x ≡ iterate n f y
    → x ≡ y
iterate-injective f h zero x y e = e
iterate-injective f h (suc n) x y e = h x y (iterate-injective f h n (f x) (f y) e)

pub byte_shift-injective : (x y : ℕ) → byte_shift x ≡ byte_shift y → x ≡ y
unfolding byte_shift
byte_shift-injective x y e = iterate-injective bit_step bit_step-injective 8 x y e

byte_step-injective : (s t c : ℕ) → byte_step s c ≡ byte_step t c → s ≡ t
unfolding byte_step
byte_step-injective s t c e = xor_injective s t (c * 2 ^ 24) (byte_shift-injective _ _ e)

-- Registers that differ still differ after the same bytes.
pub remainder-injective : (b : Bytes) (s t : ℕ) → remainder s b ≡ remainder t b → s ≡ t
unfolding remainder
remainder-injective [] s t e = e
remainder-injective (c ∷ b) s t e =
    byte_step-injective s t c (remainder-injective b (byte_step s c) (byte_step t c) e)
