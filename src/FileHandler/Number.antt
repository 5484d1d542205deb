-- ===== src/FileHandler/Number.antt =====
-- `std::stoi`, which FileHandler.cpp calls on the port: white space, a sign, digits, and two
-- exceptions.
pub mod Decimal
use defensive_systems_open_u.Prelude.{
  ℕ, ◌+◌, ◌-◌, ◌*◌, ◌^◌, Bool, true, false, ◌&&◌, ◌||◌, [], ◌∷◌, Bytes, ltb, leb, ◌==◌,
  if◌then◌else◌,
}
use defensive_systems_open_u.Prelude.Int.{ℤ, pos, negsuc}

pub data Parsed : Type 0 where
  value : ℤ → Parsed
  no_conversion : Parsed
  beyond_int : Parsed

-- `isspace` in the C locale.
abbrev is_space : ℕ → Bool
is_space c = c == 32 || (leb 9 c && leb c 13)

abbrev pub is_digit : ℕ → Bool
is_digit c = leb b'0' c && leb c b'9'

unfoldable skip_spaces : Bytes → Bytes
skip_spaces [] = []
skip_spaces (c ∷ s) = let rest = skip_spaces s in if is_space c then rest else c ∷ s

-- The value of the digits in front, behind `acc`. What follows them is left alone.
unfoldable pub digits_value : ℕ → Bytes → ℕ
digits_value acc [] = acc
digits_value acc (c ∷ s) =
    let more = digits_value (acc * 10 + (c - b'0')) s in if is_digit c then more else acc

unfoldable signed : Bool → ℕ → Parsed
signed false n = if ltb n (2 ^ 31) then value (pos n) else beyond_int
signed true n =
    if n == 0 then value (pos 0) else if leb n (2 ^ 31) then value (negsuc (n - 1)) else beyond_int

unfoldable starts_with_digit : Bytes → Bool
starts_with_digit [] = false
starts_with_digit (c ∷ s) = is_digit c

unfoldable unsigned_part : Bool → Bytes → Parsed
unfolding signed digits_value starts_with_digit
unsigned_part negative s =
    if starts_with_digit s then signed negative (digits_value 0 s) else no_conversion

unfoldable after_spaces : Bytes → Parsed
unfolding unsigned_part
after_spaces [] = no_conversion
after_spaces (c ∷ s) =
    if c == b'-'
    then unsigned_part true s
    else if c == b'+'
    then unsigned_part false s
    else unsigned_part false (c ∷ s)

unfoldable pub stoi : Bytes → Parsed
unfolding after_spaces skip_spaces
stoi s = after_spaces (skip_spaces s)
