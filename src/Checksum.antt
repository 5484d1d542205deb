-- ===== src/Checksum.antt =====
-- checksum.cpp: the word arithmetic and `memcrc`. A byte is the value of its `unsigned char`, and
-- an `unsigned long` has 64 bits. `none` is a read out of range or an overflow of the `int` index,
-- which C++ leaves undefined.
pub mod Table
pub mod Cksum
pub mod Linear
pub mod Lookup
pub mod Memcrc
pub mod Injective
pub mod Detection
pub mod File
pub mod Report
use defensive_systems_open_u.Checksum.Table.{crctab}
use defensive_systems_open_u.Prelude.{
  ℕ, zero, suc, ◌+◌, ◌-◌, ◌*◌, ◌/◌, ◌%◌, ◌^◌, bit_xor, Bytes, Option, none, some, List, [], ◌∷◌,
  get_elem?, ◌==◌, if◌then◌else◌,
}

infixl 5 ◌>>=◌
abbrev pub ◌>>=◌ {ℓ κ} : {A : Type ℓ} {B : Type κ} → Option A → (A → Option B) → Option B
none >>= f = none
some a >>= f = f a

-- `UNSIGNED(n)`, that is `n & 0xffffffff`.
abbrev pub unsigned : ℕ → ℕ
unsigned n = n % 2 ^ 32

-- `s << 8` in 64 bits.
abbrev pub shift_byte : ℕ → ℕ
shift_byte s = s * 2 ^ 8 % 2 ^ 64

-- `s >> 24`
abbrev pub top_byte : ℕ → ℕ
top_byte s = s / 2 ^ 24

abbrev pub int_max : ℕ
int_max = 2 ^ 31 - 1

-- `UNSIGNED(s << 8) ^ crctab[0][i]`
unfoldable pub advance : ℕ → ℕ → Option ℕ
unfolding crctab
advance s i = do
  row ← get_elem? crctab 0
  word ← get_elem? row i
  some (bit_xor (unsigned (shift_byte s)) word)

-- The `for` loop with `left` rounds to go: `tabidx` is an `unsigned int`, and `i++` must not pass
-- the largest `int`.
unfoldable pub scan : Bytes → ℕ → ℕ → ℕ → Option ℕ
scan b zero i s = some s
scan b (suc left) i s = do
  c ← get_elem? b i
  t ← advance s (unsigned (bit_xor (top_byte s) c))
  let rest = scan b left (i + 1) t
  if i == int_max then none else rest

-- The `while (n)` loop, on fuel: `none` also where the fuel runs out.
unfoldable pub absorb_length : ℕ → ℕ → ℕ → Option ℕ
absorb_length zero n s = none
absorb_length (suc fuel) n s =
    let rest = (do
      t ← advance s (bit_xor (top_byte s) (n % 2 ^ 8))
      absorb_length fuel (n / 2 ^ 8) t) in
    if n == 0 then some s else rest

-- A `size_t` has eight bytes, so the loop makes eight rounds and a last test.
unfoldable pub memcrc : Bytes → ℕ → Option ℕ
unfolding scan absorb_length advance
memcrc b n = do s ← scan b n 0 0; t ← absorb_length 9 n s; some (unsigned (2 ^ 64 - 1 - t))
