-- ===== src/Tests/Witnesses.antt =====
-- The theorems at concrete inputs: the client's modules, main.cpp to checksum.cpp.
use defensive_systems_open_u.Prelude.{
  ◌*◌, ◌^◌, ◌≤◌, ◌≡◌, ◌≢◌, ◌↔◌, refl, arith, none, some, [], ◌∷◌, ◌++◌, length, replicate, Bytes,
  IsBytes, codes,
}
use defensive_systems_open_u.Checksum.{int_max, memcrc}
use defensive_systems_open_u.Checksum.Cksum.{cksum, byte_shift, iterate}
use defensive_systems_open_u.Checksum.Detection.{memcrc_burst}
use defensive_systems_open_u.Checksum.File.{read_crc}
use defensive_systems_open_u.Checksum.File.Value.{read_crc-cksum}
use defensive_systems_open_u.Checksum.Lookup.{word_at, crctab_lem}
use defensive_systems_open_u.Checksum.Memcrc.{memcrc-cksum, memcrc_defined}
use defensive_systems_open_u.Protocol.Message.{Request, serialise}
use defensive_systems_open_u.Protocol.Message.Layout.{receive, receive-serialise}
use defensive_systems_open_u.Runtime.Exec.{ok}
use defensive_systems_open_u.Runtime.World.{World}
use defensive_systems_open_u.Tests.{accepting, example_text, id, start}
use defensive_systems_open_u.Tests.Script.{scripted}

abbrev world : World scripted
world = start accepting

abbrev two : Bytes
two = 49 ∷ 50 ∷ []

two-IsBytes : IsBytes two
two-IsBytes = (omega arith, (omega arith, tt))

memcrc-cksum_example : memcrc (49 ∷ 50 ∷ 51 ∷ []) 2 ≡ some (cksum two)
memcrc-cksum_example =
    memcrc-cksum (49 ∷ 50 ∷ 51 ∷ []) 2 (omega arith, (omega arith, (omega arith, tt))) (omega arith)
      (omega arith)

memcrc_defined_example : (memcrc two 3 ≢ none) ↔ ((3 ≤ length two) × (3 ≤ int_max))
memcrc_defined_example = memcrc_defined two 3 (omega arith, (omega arith, tt))

memcrc_burst_example : memcrc (two ++ two ++ two) 6 ≢ memcrc (two ++ (51 ∷ 50 ∷ []) ++ two) 6
memcrc_burst_example =
    memcrc_burst two two (51 ∷ 50 ∷ []) two two-IsBytes two-IsBytes (omega arith, (omega arith, tt))
      two-IsBytes refl (omega arith) (omega arith) (ground arith)

crctab_lem_example : word_at 3 200 ≡ some (iterate 4 byte_shift (200 * 2 ^ 24))
crctab_lem_example = crctab_lem 3 200 (omega arith) (omega arith)

abbrev request : Request
request = record {
  client_id = id;
  version = b'3';
  padding = 0;
  code = 1025;
  payload_size = 2;
  payload = two;
}

receive-serialise_example :
    (b : Bytes) × (serialise request (replicate 26 7) ≡ some b)
    × (receive b ≡ record {
      client_id = id;
      version = b'3' ∷ [];
      code = 1025;
      payload_size = 2;
      payload = two;
    })
receive-serialise_example =
    receive-serialise request (replicate 26 7) (record { id_size = refl; code_fits = omega arith })
      (omega arith) (omega arith) refl

example_text-IsBytes : IsBytes example_text
example_text-IsBytes = ground arith

read_crc-cksum_example : read_crc (codes "example.txt") world ≡ (ok (cksum example_text), world)
read_crc-cksum_example =
    read_crc-cksum (codes "example.txt") world example_text example_text refl refl refl
      example_text-IsBytes (omega arith)
