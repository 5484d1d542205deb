-- ===== src/Prelude/Text.antt =====
-- Text as bytes: literals, line ends, hexadecimal and decimal digits, as the standard streams write
-- and read them.
use Prim.Native.Nat.{ℕ, zero, suc, ◌+◌, ◌-◌, ◌/◌, ◌%◌}
use Prim.Native.Char.{code}
use Prim.Native.String.{String}
use mathlib.Core.List.{[], ◌∷◌}
use defensive_systems_open_u.Prelude.ByteList.{Bytes}
use defensive_systems_open_u.Prelude.Tests.{ltb, ◌==◌, if◌then◌else◌}

-- The bytes of an ASCII text. `String` has its own `[]` and `∷`.
abbrev pub codes : String → Bytes
codes String.[] = []
codes (String.◌∷◌ c s) = code c ∷ codes s

abbrev pub newline : ℕ
newline = 10

-- `std::getline`: the text before the first line end, and what is left behind it. At the end of the
-- input both are empty.
unfoldable pub getline : Bytes → Bytes × Bytes
getline [] = ([], [])
getline (c ∷ s) = let rest = getline s in if c == newline then ([], s) else (c ∷ rest.0, rest.1)

abbrev pub hex_digit : ℕ → ℕ
hex_digit n = if ltb n 10 then b'0' + n else b'a' + (n - 10)

-- `<< std::hex << std::setw(2) << std::setfill('0') <<` for each byte.
unfoldable pub hex : Bytes → Bytes
hex [] = []
hex (c ∷ s) = hex_digit (c / 16) ∷ hex_digit (c % 16) ∷ hex s

-- The digits of a positive number in front of `out`, on fuel.
unfoldable pub digits_onto : ℕ → ℕ → Bytes → Bytes
digits_onto zero n out = out
digits_onto (suc fuel) n out =
    let more = digits_onto fuel (n / 10) ((b'0' + n % 10) ∷ out) in if n == 0 then out else more

-- An unsigned number in decimal. A number has fewer digits than its value plus one.
unfoldable pub decimal : ℕ → Bytes
unfolding digits_onto
decimal n = if n == 0 then b'0' ∷ [] else digits_onto (suc n) n []
