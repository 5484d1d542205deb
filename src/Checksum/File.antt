-- ===== src/Checksum/File.antt =====
-- checksum.cpp, `readCrc`: the checksum of a file, or 0 with a message.
pub mod Value
use defensive_systems_open_u.Prelude.{
  ℕ, ◌%◌, ◌^◌, Option, none, some, List, [], ◌∷◌, ◌++◌, Bytes, codes, newline,
}
use defensive_systems_open_u.Checksum.{memcrc}
use defensive_systems_open_u.Runtime.Os.{Os}
use defensive_systems_open_u.Runtime.Exec.{ok, pure, gets, in_bounds, ◌>>=◌, ◌>>◌}
use defensive_systems_open_u.Runtime.World.{World, M, cerr, print}

module _ {O : Os} where
  -- A message on the error stream, and 0.
  unfoldable pub read_crc_failed : Bytes → Bytes → M O ℕ
  read_crc_failed message fname = do print cerr (message ++ (fname ++ (newline ∷ []))); pure 0

  unfoldable pub checked_crc : Bytes → ℕ → Option Bytes → M O ℕ
  unfolding read_crc_failed
  checked_crc fname size none = read_crc_failed (codes "Error reading file ") fname
  checked_crc fname size (some buffer) = do
    crc ← in_bounds (memcrc buffer size)
    pure (crc % 2 ^ 32)

  unfoldable pub sized_crc : Bytes → Option ℕ → M O ℕ
  unfolding checked_crc read_crc_failed
  sized_crc fname none = read_crc_failed (codes "Error determining the size of the file ") fname
  sized_crc fname (some size) = gets (λ w. O.read fname size w.os) >>= checked_crc fname size

  unfoldable pub opened_crc : Bytes → Option Bytes → M O ℕ
  unfolding sized_crc read_crc_failed
  opened_crc fname none = read_crc_failed (codes "Cannot open input file ") fname
  opened_crc fname (some _) = gets (λ w. O.tellg fname w.os) >>= sized_crc fname

  unfoldable pub read_crc : Bytes → M O ℕ
  unfolding opened_crc
  read_crc fname = gets (λ w. O.read_file fname w.os) >>= opened_crc fname
