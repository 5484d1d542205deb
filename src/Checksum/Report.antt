-- ===== src/Checksum/Report.antt =====
-- checksum.cpp, `readfile`: a line of text about a file, which the client does not call.
pub mod Agree
use defensive_systems_open_u.Prelude.{
  ℕ, Bool, true, false, Option, none, some, [], ◌∷◌, ◌++◌, length, take, drop, Bytes, codes,
  decimal, newline, leb, if◌then◌else◌,
}
use defensive_systems_open_u.Checksum.{memcrc}
use defensive_systems_open_u.Runtime.Os.{Os}
use defensive_systems_open_u.Runtime.Exec.{system_error, pure, throw, gets, in_bounds, ◌>>=◌, ◌>>◌}
use defensive_systems_open_u.Runtime.World.{World, M, cout, cerr, print}

-- What `f1.read(b, size)` leaves in `b`: the start of the file, if it is open, over what the memory
-- held.
unfoldable pub filled : Bytes → ℕ → Option Bytes → Bytes
filled memory size none = memory
filled memory size (some text) = take size text ++ drop (length (take size text)) memory

-- `f1.tellg()` after it: -1 where the file is not open or too short.
unfoldable pub position : ℕ → Option Bytes → Bytes
unfolding decimal
position size none = codes "-1"
position size (some text) = if leb size (length text) then decimal size else codes "-1"

module _ {O : Os} where
  -- An exception of `std::filesystem`.
  unfoldable pub or_filesystem_error : {A : Type 0} → Option A → M O A
  or_filesystem_error none = throw system_error (codes "filesystem error")
  or_filesystem_error (some a) = pure a

  unfoldable pub existing_report : Bytes → M O Bytes
  unfolding or_filesystem_error filled position decimal
  existing_report fname = do
    file ← gets (λ w. O.read_file fname w.os)
    found ← gets (λ w. O.file_size fname w.os)
    size ← or_filesystem_error found
    memory ← gets (λ w. O.garbage size w.os)
    print cout (codes "tellg returns" ++ (position size file ++ (newline ∷ [])))
    crc ← in_bounds (memcrc (filled memory size file) size)
    pure (decimal crc ++ (b'\t' ∷ (decimal size ++ (b'\t' ∷ fname))))

  unfoldable pub readfile : Bytes → M O Bytes
  unfolding existing_report or_filesystem_error
  readfile fname = do
    found ← gets (λ w. O.exists fname w.os)
    there ← or_filesystem_error found
    if there
        then existing_report fname
        else (do print cerr (codes "Cannot open input file " ++ (fname ++ (newline ∷ []))); pure [])
