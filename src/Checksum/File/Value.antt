-- ===== src/Checksum/File/Value.antt =====
-- checksum.cpp, `readCrc`: its result on each path.
use native.Mathlib.Nat.{mod-eq_of_lt}
use defensive_systems_open_u.Prelude.{
  ℕ, ◌%◌, ◌^◌, ◌≤◌, ◌≡◌, refl, ap, ◌∙◌, arith, none, some, [], ◌∷◌, ◌++◌, length, Bytes, IsBytes,
  codes, newline,
}
use defensive_systems_open_u.Buffer.Laws.{take_all}
use defensive_systems_open_u.Checksum.{int_max, memcrc}
use defensive_systems_open_u.Checksum.Cksum.{cksum}
use defensive_systems_open_u.Checksum.File.{
  read_crc_failed, checked_crc, sized_crc, opened_crc, read_crc,
}
use defensive_systems_open_u.Checksum.Memcrc.{memcrc-cksum, cksum-lt}
use defensive_systems_open_u.Runtime.Os.{Os}
use defensive_systems_open_u.Runtime.Exec.{ok, ◌>>=◌}
use defensive_systems_open_u.Runtime.World.{World, cerr, printed, note}

module _ {O : Os} (fname : Bytes) (w : World O) where
  -- For a file of bytes that opens, has a size that an `int` can count, and gives that many bytes,
  -- the result is the POSIX checksum of its contents, and nothing is printed or changed.
  pub read_crc-cksum :
      (whole contents : Bytes)
      → O.read_file fname w.os ≡ some whole
      → O.tellg fname w.os ≡ some (length contents)
      → O.read fname (length contents) w.os ≡ some contents
      → IsBytes contents
      → length contents ≤ int_max
      → read_crc fname w ≡ (ok (cksum contents), w)
  unfolding read_crc ◌>>=◌
  read_crc-cksum whole contents opens sized reads bytes fits =
      rw (opens, opened_crc)
        (rw (sized, sized_crc)
          (rw (reads, checked_crc) (rw value (ap (λ (n : ℕ). (ok n, w)) small))))
    where
      value : memcrc contents (length contents) ≡ some (cksum contents)
      value =
          memcrc-cksum contents (length contents) bytes (omega arith) fits
          ∙ ap (λ (b : Bytes). some (cksum b)) (take_all contents (length contents) refl)

      small : cksum contents % 2 ^ 32 ≡ cksum contents
      small = mod-eq_of_lt (cksum-lt contents)

  -- A file that does not open.
  pub read_crc_closed :
      O.read_file fname w.os ≡ none
      → read_crc fname w ≡ (
        ok 0,
        note (printed cerr (codes "Cannot open input file " ++ (fname ++ (newline ∷ [])))) w,
      )
  unfolding read_crc read_crc_failed ◌>>=◌
  read_crc_closed closed = rw (closed, opened_crc) refl
