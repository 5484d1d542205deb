-- ===== src/Buffer.antt =====
-- The memory functions of C that the client calls, on buffers as lists of bytes. `none` is an
-- access out of bounds.
use defensive_systems_open_u.Prelude.{
  ℕ, zero, suc, ◌+◌, ◌-◌, ◌*◌, ◌/◌, ◌%◌, ◌^◌, Option, none, some, List, [], ◌∷◌, ◌++◌, length, take,
  drop, replicate, Bytes, leb, ◌==◌, if◌then◌else◌,
}
pub mod Laws

-- `memcpy(buf + off, src, …)` of all of `src`.
unfoldable pub write_at : ℕ → Bytes → Bytes → Option Bytes
write_at off src buf =
    if leb (off + length src) (length buf)
    then some (take off buf ++ (src ++ drop (off + length src) buf))
    else none

-- Reading `n` bytes from `buf + off`.
unfoldable pub read_at : ℕ → ℕ → Bytes → Option Bytes
read_at off n buf = if leb (off + n) (length buf) then some (take n (drop off buf)) else none

-- The text of a string up to its first zero byte, as `c_str()` is read.
unfoldable pub c_str : Bytes → Bytes
c_str [] = []
c_str (c ∷ s) = let rest = c_str s in if c == 0 then [] else c ∷ rest

-- What `strncpy` writes: the text, cut or filled up with zeros to `n` bytes.
unfoldable pub padded : ℕ → Bytes → Bytes
unfolding c_str
padded n s = let t = take n (c_str s) in t ++ replicate (n - length t) 0

-- What `strcpy` writes: the text and a zero.
unfoldable pub terminated : Bytes → Bytes
unfolding c_str
terminated s = c_str s ++ (0 ∷ [])

-- A number in memory, the lowest byte first, as the host stores it.
abbrev pub little : ℕ → ℕ → Bytes
little zero n = []
little (suc places) n = (n % 256) ∷ little places (n / 256)

-- The number that the host reads from memory.
abbrev pub little_value : Bytes → ℕ
little_value [] = 0
little_value (b ∷ bs) = b + 256 * little_value bs

-- What `htons` and `htonl` leave in memory, and what `ntohs` and `ntohl` make of it.
abbrev pub big16 : ℕ → Bytes
big16 n = (n / 256 % 256) ∷ (n % 256) ∷ []

abbrev pub big32 : ℕ → Bytes
big32 n = (n / 2 ^ 24 % 256) ∷ (n / 2 ^ 16 % 256) ∷ (n / 2 ^ 8 % 256) ∷ (n % 256) ∷ []

abbrev pub big_value : Bytes → ℕ
big_value bs = go 0 bs
  where
    go : ℕ → Bytes → ℕ
    go acc [] = acc
    go acc (b ∷ bs) = go (acc * 256 + b) bs
