-- ===== src/Checksum/Cksum.antt =====
-- What a POSIX `cksum` is, bit by bit and with no table: the remainder by the generator polynomial
-- of the bytes followed by the octets of their number, complemented.
use defensive_systems_open_u.Prelude.{
  ℕ, zero, suc, ◌-◌, ◌*◌, ◌/◌, ◌%◌, ◌^◌, bit_xor, Bytes, [], ◌∷◌, ◌++◌, foldl, length, ltb, ◌==◌,
  if◌then◌else◌,
}

abbrev pub polynomial : ℕ
polynomial = 0x04c11db7

-- One bit of the division: shift left, and subtract the polynomial if a bit fell out.
unfoldable pub bit_step : ℕ → ℕ
bit_step x = if ltb x (2 ^ 31) then x * 2 else bit_xor (x * 2 - 2 ^ 32) polynomial

abbrev pub iterate {ℓ} : {A : Type ℓ} → ℕ → (A → A) → A → A
iterate zero f x = x
iterate (suc n) f x = iterate n f (f x)

-- Eight bits.
unfoldable pub byte_shift : ℕ → ℕ
unfolding bit_step
byte_shift = iterate 8 bit_step

-- A byte enters at the top of the register.
unfoldable pub byte_step : ℕ → ℕ → ℕ
unfolding byte_shift
byte_step s c = byte_shift (bit_xor s (c * 2 ^ 24))

unfoldable pub remainder : ℕ → Bytes → ℕ
unfolding byte_step
remainder = foldl byte_step

-- The octets of a number, the least significant first, with no zero at the end.
unfoldable pub octets : ℕ → ℕ → Bytes
octets zero n = []
octets (suc places) n =
    let rest = octets places (n / 256) in if n == 0 then [] else (n % 256) ∷ rest

unfoldable pub cksum : Bytes → ℕ
unfolding remainder octets
cksum b = 2 ^ 32 - 1 - remainder 0 (b ++ octets 8 (length b))
