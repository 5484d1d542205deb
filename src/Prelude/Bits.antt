-- ===== src/Prelude/Bits.antt =====
-- Exclusive or at every width: the digit recursion, and from it the algebra, the bounds, and how it
-- goes with shifts. The C operators `^`, `<<`, `>>` and `& 0xffffffff` are read through these.
use Prim.Native.Nat.{ℕ, zero, suc, ◌+◌, ◌*◌, ◌/◌, ◌%◌, ◌^◌, ◌≤◌, ◌<◌}
use Prim.Native.Nat.{bit_xor, bit_xor-bitwise, digits, differ}
use mathlib.Core.Path.{◌≡◌, refl, sym, ap, ap₂, ◌∙◌}
use native.Mathlib.Nat.{pow-suc, le_refl, mul-one, add-zero, one-le-pow}
use native.Mathlib.Nat.{
  div-add-mod', mod-lt, mod-eq_of_lt, div-eq_of_lt, mul-add-mod_self_right, mul-add-div_right,
}
use native.Mathlib.Omega.{arith}

abbrev same : ℕ → ℕ
same b = b

fuel_irrelevant :
    (n m a b : ℕ) → a ≤ n → a ≤ m → digits same differ n a b ≡ digits same differ m a b
fuel_irrelevant zero zero a b p q = refl
fuel_irrelevant zero (suc m) zero b p q = refl
fuel_irrelevant zero (suc m) (suc a) b p q = absurd (omega arith)
fuel_irrelevant (suc n) zero zero b p q = refl
fuel_irrelevant (suc n) zero (suc a) b p q = absurd (omega arith)
fuel_irrelevant (suc n) (suc m) zero b p q = refl
fuel_irrelevant (suc n) (suc m) (suc a) b p q =
    rw (fuel_irrelevant n m (suc a / 2) (b / 2) (omega arith) (omega arith))

differ_bits : (x y : ℕ) → x < 2 → y < 2 → differ x y ≡ (x + y) % 2
differ_bits zero zero p q = refl
differ_bits zero (suc zero) p q = refl
differ_bits zero (suc (suc y)) p q = absurd (omega arith)
differ_bits (suc zero) zero p q = refl
differ_bits (suc zero) (suc zero) p q = refl
differ_bits (suc zero) (suc (suc y)) p q = absurd (omega arith)
differ_bits (suc (suc x)) y p q = absurd (omega arith)

differ_lem : (a b : ℕ) → differ (a % 2) (b % 2) ≡ (a % 2 + b % 2) % 2
differ_lem a b = differ_bits (a % 2) (b % 2) (omega arith) (omega arith)

pub zero-xor : (b : ℕ) → bit_xor 0 b ≡ b
zero-xor b = bit_xor-bitwise 0 b

-- The lowest digit of an exclusive or, and the rest of it.
pub xor_step : (a b : ℕ) → bit_xor a b ≡ bit_xor (a / 2) (b / 2) * 2 + (a % 2 + b % 2) % 2
xor_step zero b = omega (arith, zero-xor b, zero-xor (b / 2))
xor_step (suc a) b = omega (
  arith,
  bit_xor-bitwise (suc a) b,
  bit_xor-bitwise (suc a / 2) (b / 2),
  fuel_irrelevant a (suc a / 2) (suc a / 2) (b / 2) (omega arith) (omega arith),
  differ_lem (suc a) b,
)

-- Strong induction on a bound for both numbers.
xor_comm_fuel : (n a b : ℕ) → a ≤ n → b ≤ n → bit_xor a b ≡ bit_xor b a
xor_comm_fuel zero a b p q = rw (zero_of p, zero_of q)
  where
    zero_of : {c : ℕ} → c ≤ 0 → c ≡ 0
    zero_of h = omega arith
xor_comm_fuel (suc n) a b p q =
    omega (
      arith,
      xor_step a b,
      xor_step b a,
      xor_comm_fuel n (a / 2) (b / 2) (omega arith) (omega arith),
    )

pub xor_comm : (a b : ℕ) → bit_xor a b ≡ bit_xor b a
xor_comm a b = xor_comm_fuel (a + b) a b (omega arith) (omega arith)

pub xor_zero : (a : ℕ) → bit_xor a 0 ≡ a
xor_zero a = xor_comm a 0 ∙ zero-xor a

pub xor_self : (a : ℕ) → bit_xor a a ≡ 0
xor_self a = go a a (le_refl a)
  where
    go : (n a : ℕ) → a ≤ n → bit_xor a a ≡ 0
    go n zero p = refl
    go zero (suc a) p = absurd (omega arith)
    go (suc n) (suc a) p = omega (arith, xor_step (suc a) (suc a), go n (suc a / 2) (omega arith))

xor_half :
    (a b : ℕ)
    → (bit_xor a b / 2 ≡ bit_xor (a / 2) (b / 2)) × (bit_xor a b % 2 ≡ (a % 2 + b % 2) % 2)
xor_half a b = omega (arith, xor_step a b)

zero_of : {c : ℕ} → c ≤ 0 → c ≡ 0
zero_of h = omega arith

xor_assoc_fuel : (n a b c : ℕ) → a + b + c ≤ n → bit_xor (bit_xor a b) c ≡ bit_xor a (bit_xor b c)
xor_assoc_fuel zero a b c p =
    rw (zero_of {c = a} (omega arith), zero_of {c = b} (omega arith), zero_of {c = c} (omega arith))
      refl
xor_assoc_fuel (suc n) a b c p = omega (
  arith,
  xor_step (bit_xor a b) c,
  xor_step a (bit_xor b c),
  (xor_half a b).1,
  (xor_half b c).1,
  ap (λ (t : ℕ). bit_xor t (c / 2)) (xor_half a b).0,
  ap (λ (t : ℕ). bit_xor (a / 2) t) (xor_half b c).0,
  xor_assoc_fuel n (a / 2) (b / 2) (c / 2) (omega arith),
)

pub xor_assoc : (a b c : ℕ) → bit_xor (bit_xor a b) c ≡ bit_xor a (bit_xor b c)
xor_assoc a b c = xor_assoc_fuel (a + b + c) a b c (le_refl _)

pub xor_left_comm : (a b c : ℕ) → bit_xor a (bit_xor b c) ≡ bit_xor b (bit_xor a c)
xor_left_comm a b c =
    sym (xor_assoc a b c) ∙ ap (λ (t : ℕ). bit_xor t c) (xor_comm a b) ∙ xor_assoc b a c

-- Exclusive or with the same number twice cancels.
pub xor_cancel : (a b : ℕ) → bit_xor (bit_xor a b) b ≡ a
xor_cancel a b = xor_assoc a b b ∙ ap (λ (t : ℕ). bit_xor a t) (xor_self b) ∙ xor_zero a

pub xor_injective : (a b c : ℕ) → bit_xor a c ≡ bit_xor b c → a ≡ b
xor_injective a b c e = sym (xor_cancel a c) ∙ ap (λ (t : ℕ). bit_xor t c) e ∙ xor_cancel b c

pub xor-lt : (k a b : ℕ) → a < 2 ^ k → b < 2 ^ k → bit_xor a b < 2 ^ k
xor-lt zero a b p q = rw (zero_of {c = a} (omega arith), zero_of {c = b} (omega arith)) (le_refl 1)
xor-lt (suc k) a b p q = omega (
  arith,
  xor_step a b,
  pow-suc 2 k,
  xor-lt k (a / 2) (b / 2) (omega (arith, pow-suc 2 k)) (omega (arith, pow-suc 2 k)),
)

-- A shift by one more place.
double_shift : (k high : ℕ) → high * 2 ^ suc k ≡ high * 2 ^ k * 2
double_shift k high = ap (λ (power : ℕ). high * power) (pow-suc 2 k) ∙ omega arith

two_pow-pos : (k : ℕ) → 0 < 2 ^ k
two_pow-pos k = one-le-pow k 2 (omega arith)

-- Fields of k low bits: the low parts and the high parts meet separately.
pub xor_fields :
    (k p q r s : ℕ)
    → r < 2 ^ k
    → s < 2 ^ k
    → bit_xor (p * 2 ^ k + r) (q * 2 ^ k + s) ≡ bit_xor p q * 2 ^ k + bit_xor r s
xor_fields zero p q r s hr hs =
    rw (zero_of {c = r} (omega arith), zero_of {c = s} (omega arith)) (simp (mul-one, add-zero))
xor_fields (suc k) p q r s hr hs = omega (
  arith,
  double_shift k p,
  double_shift k q,
  double_shift k (bit_xor p q),
  xor_step (p * 2 ^ suc k + r) (q * 2 ^ suc k + s),
  xor_step r s,
  ap₂ bit_xor (halve p r) (halve q s),
  xor_fields k p q (r / 2) (s / 2) (omega (arith, pow-suc 2 k)) (omega (arith, pow-suc 2 k)),
)
  where
    halve : (q r : ℕ) → (q * 2 ^ suc k + r) / 2 ≡ q * 2 ^ k + r / 2
    halve q r = omega (arith, double_shift k q)

-- A shift to the left goes over both sides.
pub xor-shift : (k p q : ℕ) → bit_xor (p * 2 ^ k) (q * 2 ^ k) ≡ bit_xor p q * 2 ^ k
xor-shift k p q = omega (
  arith,
  xor_fields k p q 0 0 (two_pow-pos k) (two_pow-pos k),
  ap₂ bit_xor (add-zero (p * 2 ^ k)) (add-zero (q * 2 ^ k)),
)

-- Disjoint fields add up.
pub xor_disjoint : (k q r : ℕ) → r < 2 ^ k → bit_xor (q * 2 ^ k) r ≡ q * 2 ^ k + r
xor_disjoint k q r h = omega (
  arith,
  xor_fields k q 0 0 r (two_pow-pos k) h,
  ap₂ bit_xor (add-zero (q * 2 ^ k)) (zero-shifted r),
  ap (λ (t : ℕ). t * 2 ^ k) (xor_zero q),
  zero-xor r,
)
  where
    zero-shifted : (r : ℕ) → 0 * 2 ^ k + r ≡ r
    zero-shifted r = omega arith

split_at :
    (k a b : ℕ)
    → bit_xor a b ≡ bit_xor (a / 2 ^ k) (b / 2 ^ k) * 2 ^ k + bit_xor (a % 2 ^ k) (b % 2 ^ k)
split_at k a b =
    ap₂ bit_xor (sym (div-add-mod' a (2 ^ k))) (sym (div-add-mod' b (2 ^ k)))
    ∙ xor_fields k (a / 2 ^ k) (b / 2 ^ k) (a % 2 ^ k) (b % 2 ^ k) (mod-lt a (two_pow-pos k))
        (mod-lt b (two_pow-pos k))

-- A cut to the low k bits, and a shift to the right, go over both sides.
pub xor_parts :
    (k a b : ℕ)
    → (bit_xor a b % 2 ^ k ≡ bit_xor (a % 2 ^ k) (b % 2 ^ k))
      × (bit_xor a b / 2 ^ k ≡ bit_xor (a / 2 ^ k) (b / 2 ^ k))
xor_parts k a b = (
  ap (λ (t : ℕ). t % 2 ^ k) (split_at k a b)
      ∙ mul-add-mod_self_right _ (2 ^ k) _
      ∙ mod-eq_of_lt fits,
  ap (λ (t : ℕ). t / 2 ^ k) (split_at k a b)
      ∙ mul-add-div_right (two_pow-pos k) _ _
      ∙ omega (arith, div-eq_of_lt fits),
)
  where
    fits : bit_xor (a % 2 ^ k) (b % 2 ^ k) < 2 ^ k
    fits = xor-lt k _ _ (mod-lt a (two_pow-pos k)) (mod-lt b (two_pow-pos k))

-- The middle pair changes places.
pub xor_interchange :
    (a b c d : ℕ) → bit_xor (bit_xor a b) (bit_xor c d) ≡ bit_xor (bit_xor a c) (bit_xor b d)
xor_interchange a b c d =
    xor_assoc a b (bit_xor c d)
    ∙ ap (λ (t : ℕ). bit_xor a t) (xor_left_comm b c d)
    ∙ sym (xor_assoc a c (bit_xor b d))
