-- ===== src/Tests.antt =====
-- Runs of the client at concrete inputs, and the theorems at such inputs.
pub mod Script
pub mod Witnesses
pub mod Parts
pub mod Server
pub mod Runs
pub mod Stubborn
pub mod Answering
pub mod Corners
use defensive_systems_open_u.Prelude.{
  ℕ, ◌≡◌, refl, Bool, true, false, Option, none, some, List, [], ◌∷◌, ◌++◌, Bytes, codes, newline,
}
use defensive_systems_open_u.Buffer.{little}
use defensive_systems_open_u.Checksum.{memcrc}
use defensive_systems_open_u.Checksum.Table.{row0}
use defensive_systems_open_u.FileHandler.{transfer_info_path, read_transfer_info}
use defensive_systems_open_u.Main.{handle_client}
use defensive_systems_open_u.Prelude.Int.{pos}
use defensive_systems_open_u.Protocol.Order.{closed, confirmed, phase_after, request_code}
use defensive_systems_open_u.Protocol.Connection.{Handler}
use defensive_systems_open_u.Runtime.Exec.{Result, ok, ◌>>=◌}
use defensive_systems_open_u.Runtime.World.{World, sends}
use defensive_systems_open_u.Tests.Script.{scripted, toy}

-- transfer.info of the repository.
abbrev pub transfer_text : Bytes
transfer_text =
    codes "0.0.0.0: 8080"
    ++ (newline ∷ (codes "Erez Drutin" ++ (newline ∷ (codes "example.txt" ++ (newline ∷ [])))))

-- example.txt of the repository.
abbrev pub example_text : Bytes
example_text = codes "some small amount of text."

abbrev pub id : Bytes
id = codes "0123456789abcdef"

abbrev pub start : List (Option Bytes) → World scripted
start replies = record {
  os = record {
    replies = replies;
    files = (transfer_info_path, transfer_text) ∷ (codes "example.txt", example_text) ∷ [];
    read_only = false;
  };
  trace = [];
}

abbrev pub handler : Handler
handler = record {
  server_address = codes "0.0.0.0";
  port = pos 8080;
  client_name = codes "Erez Drutin";
  file_path = codes "example.txt";
  socket = 3;
}

-- A reply: version 3, the code in two bytes, the size in four, and the payload.
abbrev pub reply : ℕ → ℕ → ℕ → Bytes → List (Option Bytes) → List (Option Bytes)
reply high low size payload rest =
    some (3 ∷ high ∷ low ∷ 0 ∷ 0 ∷ 0 ∷ size ∷ []) ∷ some payload ∷ rest

-- 2100, 2102 with an AES key, 2103 with the checksum, 2104.
abbrev pub accepting : List (Option Bytes)
accepting =
    reply 8 52 16 id
      (reply 8 54 32 (id ++ id) (reply 8 55 4 (little 4 1194583253) (reply 8 56 0 [] [])))

abbrev pub refusing : List (Option Bytes)
refusing = reply 8 52 16 id (
    reply 8 54 32 (id ++ id) (
      reply 8 55 4 (little 4 1) (
        reply 8 56 0 []
          (reply 8 55 4 (little 4 2) (reply 8 56 0 [] (reply 8 55 4 (little 4 3) []))))))

run : List (Option Bytes) → Result Bool × World scripted
unfolding handle_client ◌>>=◌ memcrc row0
run replies = handle_client toy (start replies)

-- The codes that a run sends, and the phase in which it ends.
sent_codes : List (Option Bytes) → List ℕ
unfolding run request_code
sent_codes replies = all (sends (run replies).1.trace)
  where
    all : List Bytes → List ℕ
    all [] = []
    all (b ∷ bs) = request_code b ∷ all bs

-- The checksum of example.txt, as the program `cksum` prints it.
crc_of_example : memcrc example_text 26 ≡ some 1194583253
unfolding memcrc row0
crc_of_example = refl

accepted_run : (run accepting).0 ≡ ok true
unfolding run
accepted_run = refl

accepted_codes : sent_codes accepting ≡ 1025 ∷ 1026 ∷ 1028 ∷ 1029 ∷ []
unfolding sent_codes
accepted_codes = refl

refused_run : ((run refusing).0 ≡ ok false)
unfolding run
refused_run = refl

refused_codes :
    sent_codes refusing ≡ 1025 ∷ 1026 ∷ 1028 ∷ 1030 ∷ 1028 ∷ 1030 ∷ 1028 ∷ 1030 ∷ 1031 ∷ []
unfolding sent_codes
refused_codes = refl

accepted_phase : phase_after (some closed) (run accepting).1.trace ≡ some confirmed
unfolding run request_code
accepted_phase = refl

parsed_transfer_info :
    (read_transfer_info (start [])).0
    ≡ ok (record {
      ip_address = codes "0.0.0.0";
      port = pos 8080;
      name = codes "Erez Drutin";
      file_path = codes "example.txt";
    })
unfolding read_transfer_info ◌>>=◌
parsed_transfer_info = refl
