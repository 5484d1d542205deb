-- ===== src/Checksum/Report/Agree.antt =====
-- checksum.cpp: `readfile` and `readCrc` on one file.
use defensive_systems_open_u.Prelude.{
  ℕ, ◌≤◌, ◌≡◌, refl, ap, ◌∙◌, arith, some, [], ◌∷◌, ◌++◌, length, Bytes, IsBytes, true, codes,
  decimal, newline,
}
use mathlib.Core.List.{append-nil}
use defensive_systems_open_u.Buffer.Laws.{take_all, drop_all}
use defensive_systems_open_u.Checksum.{int_max, memcrc}
use defensive_systems_open_u.Checksum.Cksum.{cksum}
use defensive_systems_open_u.Checksum.File.{read_crc}
use defensive_systems_open_u.Checksum.File.Value.{read_crc-cksum}
use defensive_systems_open_u.Checksum.Memcrc.{memcrc-cksum}
use defensive_systems_open_u.Checksum.Report.{
  filled, position, or_filesystem_error, existing_report, readfile,
}
use defensive_systems_open_u.Runtime.Os.{Os}
use defensive_systems_open_u.Runtime.Exec.{ok, ◌>>=◌}
use defensive_systems_open_u.Runtime.World.{World, cout, printed, note}

module _ {O : Os} (fname : Bytes) (w : World O) (contents : Bytes) where
  filled_all :
      (memory : Bytes)
      → length memory ≡ length contents
      → filled memory (length contents) (some contents) ≡ contents
  unfolding filled
  filled_all memory h = rw (take_all contents (length contents) refl) (
      ap (λ (t : Bytes). contents ++ t) (drop_all memory (length contents) (omega arith))
      ∙ append-nil contents)

  position_end : position (length contents) (some contents) ≡ decimal (length contents)
  unfolding position
  position_end = ground arith

  memcrc-filled :
      (memory : Bytes)
      → length memory ≡ length contents
      → IsBytes contents
      → length contents ≤ int_max
      → memcrc (filled memory (length contents) (some contents)) (length contents)
        ≡ some (cksum contents)
  memcrc-filled memory h bytes fits = rw (filled_all memory h) (
      memcrc-cksum contents (length contents) bytes (omega arith) fits
      ∙ ap (λ (b : Bytes). some (cksum b)) (take_all contents (length contents) refl))

  -- For a file of bytes that opens, whose size an `int` can count, and whose three ways of being
  -- measured agree, the line that `readfile` returns holds the checksum that `readCrc` returns, the
  -- size and the name, each followed by a tab; the one line that it prints ends with the size.
  pub readfile-read_crc :
      O.exists fname w.os ≡ some true
      → O.read_file fname w.os ≡ some contents
      → O.file_size fname w.os ≡ some (length contents)
      → O.tellg fname w.os ≡ some (length contents)
      → O.read fname (length contents) w.os ≡ some contents
      → length (O.garbage (length contents) w.os) ≡ length contents
      → IsBytes contents
      → length contents ≤ int_max
      → (c : ℕ) × (read_crc fname w ≡ (ok c, w))
        × (readfile fname w ≡ (
          ok (decimal c ++ (b'\t' ∷ (decimal (length contents) ++ (b'\t' ∷ fname)))),
          note
              (printed cout
                (codes "tellg returns" ++ (decimal (length contents) ++ (newline ∷ []))))
              w,
        ))
  unfolding readfile existing_report or_filesystem_error ◌>>=◌
  readfile-read_crc there opens sized measured reads memory bytes fits = (
    cksum contents,
    read_crc-cksum fname w contents contents opens measured reads bytes fits,
    rw
        (
          there,
          opens,
          sized,
          memcrc-filled (O.garbage (length contents) w.os) memory bytes fits,
          position_end,
        )
        refl,
  )
