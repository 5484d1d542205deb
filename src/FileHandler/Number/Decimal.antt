-- ===== src/FileHandler/Number/Decimal.antt =====
-- `std::stoi` on a number in decimal.
use defensive_systems_open_u.Prelude.{
  ℕ, zero, suc, ◌+◌, ◌*◌, ◌/◌, ◌%◌, ◌^◌, ◌≤◌, ◌<◌, ◌≡◌, refl, sym, ap, ◌∙◌, arith, true, false, [],
  ◌∷◌, Bytes, ◌==◌, Bool-cases, inl, inr, ==_iff, digits_onto, decimal,
}
use defensive_systems_open_u.Prelude.Int.{pos}
use defensive_systems_open_u.FileHandler.Number.{
  value, is_digit, digits_value, starts_with_digit, skip_spaces, after_spaces, unsigned_part,
  signed, stoi,
}

digits_value-digit :
    (acc d : ℕ) (s : Bytes)
    → d < 10
    → digits_value acc ((b'0' + d) ∷ s) ≡ digits_value (acc * 10 + d) s
unfolding digits_value
digits_value-digit acc d s h = ground arith

digits_value-digits_onto :
    (fuel n : ℕ) (out : Bytes)
    → n < fuel
    → digits_value 0 (digits_onto fuel n out) ≡ digits_value n out
digits_value-digits_onto zero n out h = absurd (omega arith)
digits_value-digits_onto (suc fuel) zero out h = unfold digits_onto in refl
digits_value-digits_onto (suc fuel) (suc n) out h =
    ap (digits_value 0) opened
    ∙ digits_value-digits_onto fuel (suc n / 10) _ (omega arith)
    ∙ digits_value-digit (suc n / 10) (suc n % 10) out (omega arith)
    ∙ ap (λ (v : ℕ). digits_value v out) (omega arith)
  where
    opened :
        digits_onto (suc fuel) (suc n) out
        ≡ digits_onto fuel (suc n / 10) ((b'0' + suc n % 10) ∷ out)
    opened = unfold digits_onto in ground arith

digits_onto_pos :
    (fuel n : ℕ) (out : Bytes)
    → (n == 0) ≡ false
    → digits_onto (suc fuel) n out ≡ digits_onto fuel (n / 10) ((b'0' + n % 10) ∷ out)
unfolding digits_onto
digits_onto_pos fuel n out e = rw e refl

digit : (d : ℕ) (s : Bytes) → d < 10 → starts_with_digit ((b'0' + d) ∷ s) ≡ true
unfolding starts_with_digit
digit d s h = ground arith

starts_with_digit-digits_onto :
    (fuel n : ℕ) (out : Bytes)
    → starts_with_digit out ≡ true
    → starts_with_digit (digits_onto fuel n out) ≡ true
unfolding digits_onto
starts_with_digit-digits_onto zero n out h = h
starts_with_digit-digits_onto (suc fuel) n out h = ground (
  arith,
  starts_with_digit-digits_onto fuel (n / 10) ((b'0' + n % 10) ∷ out)
      (digit (n % 10) out (omega arith)),
)

decimal_pos : (n : ℕ) → (n == 0) ≡ false → decimal n ≡ digits_onto (suc n) n []
unfolding decimal
decimal_pos n e = rw e refl

decimal_zero : (n : ℕ) → (n == 0) ≡ true → decimal n ≡ b'0' ∷ []
unfolding decimal
decimal_zero n e = rw e refl

starts_with_digit-decimal : (n : ℕ) → starts_with_digit (decimal n) ≡ true
starts_with_digit-decimal n = elim (Bool-cases (n == 0)) [
  | inl e ↦ ap starts_with_digit (decimal_zero n e) ∙ unfold starts_with_digit in refl
  | inr e ↦
      ap starts_with_digit (decimal_pos n e ∙ digits_onto_pos n n [] e)
      ∙ starts_with_digit-digits_onto n (n / 10) ((b'0' + n % 10) ∷ [])
          (first (n % 10) (omega arith))
]
  where
    first : (d : ℕ) → d < 10 → starts_with_digit ((b'0' + d) ∷ []) ≡ true
    first d h = digit d [] h

digits_value-decimal : (n : ℕ) → digits_value 0 (decimal n) ≡ n
digits_value-decimal n = elim (Bool-cases (n == 0)) [
  | inl e ↦
      ap (digits_value 0) (decimal_zero n e)
      ∙ digits_value-digit 0 0 [] (omega arith)
      ∙ unfold digits_value in sym ((==_iff n 0).0 e)
  | inr e ↦
      ap (digits_value 0) (decimal_pos n e)
      ∙ digits_value-digits_onto (suc n) n [] (omega arith)
      ∙ unfold digits_value in refl
]

digit_bounds : (c : ℕ) → is_digit c ≡ true → (b'0' ≤ c) × (c ≤ b'9')
digit_bounds c h = ground arith

skip_spaces-digit : (c : ℕ) (s : Bytes) → is_digit c ≡ true → skip_spaces (c ∷ s) ≡ c ∷ s
unfolding skip_spaces
skip_spaces-digit c s h = ground (arith, digit_bounds c h)

after_spaces-digit :
    (c : ℕ) (s : Bytes) → is_digit c ≡ true → after_spaces (c ∷ s) ≡ unsigned_part false (c ∷ s)
unfolding after_spaces
after_spaces-digit c s h = ground (arith, digit_bounds c h)

unsigned_part-digits :
    (s : Bytes)
    → starts_with_digit s ≡ true
    → unsigned_part false s ≡ signed false (digits_value 0 s)
unfolding unsigned_part
unsigned_part-digits s h = rw h refl

stoi_digits : (s : Bytes) → starts_with_digit s ≡ true → stoi s ≡ signed false (digits_value 0 s)
unfolding starts_with_digit
stoi_digits [] h = cc
stoi_digits (c ∷ s) h =
    unfold stoi in
    ap after_spaces (skip_spaces-digit c s h)
    ∙ after_spaces-digit c s h
    ∙ unsigned_part-digits (c ∷ s) h

-- Every number that an `int` holds and that is not negative is read back.
pub stoi-decimal : (n : ℕ) → n < 2 ^ 31 → stoi (decimal n) ≡ value (pos n)
stoi-decimal n h =
    stoi_digits (decimal n) (starts_with_digit-decimal n)
    ∙ ap (signed false) (digits_value-decimal n)
    ∙ unfold signed in ground arith
