-- ===== src/Crypto/Hex.antt =====
-- CryptoHandler.cpp and FileHandler.cpp: two hexadecimal digits for each byte, and back.
use defensive_systems_open_u.Prelude.{
  ℕ, ◌+◌, ◌-◌, ◌*◌, ◌/◌, ◌%◌, ◌<◌, ◌≡◌, refl, ap, ap₂, ◌∙◌, arith, [], ◌∷◌, length, Bytes, IsBytes,
  hex, hex_digit, ltb, if◌then◌else◌,
}
use defensive_systems_open_u.Buffer.{c_str}

-- The value of a digit as `hex` writes it.
abbrev pub digit_value : ℕ → ℕ
digit_value d = if ltb d b'a' then d - b'0' else d - b'a' + 10

unfoldable pub unhex : Bytes → Bytes
unhex [] = []
unhex (d ∷ []) = []
unhex (d ∷ e ∷ s) = (digit_value d * 16 + digit_value e) ∷ unhex s

digit_value-hex_digit : (n : ℕ) → n < 16 → digit_value (hex_digit n) ≡ n
digit_value-hex_digit n h = ground arith

hex_digit-pos : (n : ℕ) → n < 16 → 0 < hex_digit n
hex_digit-pos n h = ground arith

pub unhex-hex : (s : Bytes) → IsBytes s → unhex (hex s) ≡ s
unfolding unhex hex
unhex-hex [] h = refl
unhex-hex (c ∷ s) (hc, h) =
    ap₂ ◌∷◌
      (omega (
        arith,
        digit_value-hex_digit (c / 16) (omega arith),
        digit_value-hex_digit (c % 16) (omega arith),
      ))
      (unhex-hex s h)

pub length-hex : (s : Bytes) → length (hex s) ≡ 2 * length s
unfolding hex
length-hex [] = refl
length-hex (c ∷ s) = omega (arith, length-hex s)

c_str-cons : (d : ℕ) (s : Bytes) → 0 < d → c_str (d ∷ s) ≡ d ∷ c_str s
unfolding c_str
c_str-cons d s h = ground arith

-- Hexadecimal text holds no zero byte, so that the string functions of C read all of it.
pub c_str-hex : (s : Bytes) → IsBytes s → c_str (hex s) ≡ hex s
unfolding hex
c_str-hex [] h = unfold c_str in refl
c_str-hex (c ∷ s) (hc, h) =
    c_str-cons (hex_digit (c / 16)) _ (hex_digit-pos (c / 16) (omega arith))
    ∙ ap (◌∷◌ (hex_digit (c / 16))) (
        c_str-cons (hex_digit (c % 16)) _ (hex_digit-pos (c % 16) (omega arith))
        ∙ ap (◌∷◌ (hex_digit (c % 16))) (c_str-hex s h))
