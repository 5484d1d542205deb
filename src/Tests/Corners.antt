-- ===== src/Tests/Corners.antt =====
-- Theorems on error paths, on boundary values and on code that the client does not call, at concrete
-- inputs.
use mathlib.Core.Equiv.{Fiber, IsContr}
use defensive_systems_open_u.Prelude.{
  ℕ, ◌≡◌, false, refl, arith, some, [], ◌∷◌, ◌++◌, length, length-replicate, take, drop, replicate,
  Bytes, codes, decimal, newline,
}
use defensive_systems_open_u.Prelude.Int.{pos, negsuc}
use defensive_systems_open_u.Buffer.{padded, little}
use defensive_systems_open_u.Checksum.File.{read_crc}
use defensive_systems_open_u.Checksum.Report.{readfile}
use defensive_systems_open_u.Checksum.Report.Agree.{readfile-read_crc}
use defensive_systems_open_u.Crypto.Rsa.Pointers.{
  public_wrapper_at, private_wrapper_at, private_wrapper_key_to, public_key_to,
}
use defensive_systems_open_u.Crypto.Rsa.Pointers.Agree.{save-load}
use defensive_systems_open_u.Protocol.Connection.{
  Handler, get_response, has_length, handle_connection,
}
use defensive_systems_open_u.Protocol.Connection.Port.{handle_connection_port}
use defensive_systems_open_u.Protocol.Connection.Reply.{reply_header, get_response_partial}
use defensive_systems_open_u.Protocol.Flow.{handle_connection_request}
use defensive_systems_open_u.Protocol.Flow.Identity.{handle_connection_request-id}
use defensive_systems_open_u.Protocol.Message.{Response}
use defensive_systems_open_u.Protocol.Message.Wire.{Arrived, arrive, arrive-IsEquiv}
use defensive_systems_open_u.Protocol.Payload.{name_field}
use defensive_systems_open_u.Protocol.Payload.Layout.{name_field_lem}
use defensive_systems_open_u.Protocol.Upload.Unreadable.{
  OneMessage, Confirms, compare_crc_unreadable,
}
use defensive_systems_open_u.Protocol.Upload.{received_crc, compare_crc}
use defensive_systems_open_u.Runtime.Exec.{ok, ◌>>=◌}
use defensive_systems_open_u.Runtime.World.{World, cout, cerr, printed, note}
use defensive_systems_open_u.Tests.{accepting, example_text, handler, start}
use defensive_systems_open_u.Tests.Parts.{toy-IsLawful}
use defensive_systems_open_u.Tests.Script.{scripted, toy}

abbrev world : World scripted
world = start accepting

abbrev short_reply : World scripted
short_reply = start (some (reply_header 3 2100 2) ∷ some (49 ∷ 50 ∷ []) ∷ [])

abbrev short_response : Response
short_response = record { version = 51; code = 2100; payload_size = 2; payload = 49 ∷ 50 ∷ [] }

-- Fourteen bytes of the id are those of the uninitialised array.
short_id :
    (handle_connection_request handler (replicate 16 0xcc) 1025 short_reply).0
    ≡ ok (short_response, 49 ∷ 50 ∷ replicate 14 0xcc)
unfolding handle_connection_request ◌>>=◌
short_id = refl

handle_connection_request-id_example :
    49 ∷ 50 ∷ replicate 14 0xcc
    ≡ take 16 short_response.payload ++ drop (length short_response.payload) (replicate 16 0xcc)
handle_connection_request-id_example =
    handle_connection_request-id handler (replicate 16 0xcc) 1025 short_reply refl short_id

abbrev file_name : Bytes
file_name = codes "example.txt"

readfile-read_crc_example :
    (c : ℕ) × (read_crc file_name world ≡ (ok c, world))
    × (readfile file_name world ≡ (
      ok (decimal c ++ (b'\t' ∷ (decimal (length example_text) ++ (b'\t' ∷ file_name)))),
      note
          (printed cout
            (codes "tellg returns" ++ (decimal (length example_text) ++ (newline ∷ []))))
          world,
    ))
readfile-read_crc_example =
    readfile-read_crc file_name world example_text refl refl refl refl refl refl (ground arith)
      (omega arith)

abbrev key_text : Bytes
key_text = 75 ∷ 69 ∷ 89 ∷ []

save-load_example :
    ((private_wrapper_key_to toy tt (replicate 160 0) 3 >>= λ b. private_wrapper_at toy b 3) world
      ≡ (ok tt, world))
    × ((public_key_to toy tt (replicate 160 0) 3 >>= λ b. public_wrapper_at toy b 3) world
        ≡ (ok tt, world))
save-load_example =
    save-load toy toy-IsLawful tt (replicate 160 0) world (omega arith) (omega arith)

abbrev cut_payload : World scripted
cut_payload = start (some (reply_header 3 2104 5) ∷ some (49 ∷ 50 ∷ []) ∷ [])

cut_length : has_length 5 (some (49 ∷ 50 ∷ [])) ≡ false
unfolding has_length
cut_length = refl

get_response_partial_example :
    (get_response handler cut_payload).0
    ≡ ok (record { version = 51; code = 2104; payload_size = 5; payload = [] })
get_response_partial_example =
    get_response_partial handler cut_payload 3 2104 5 (some (49 ∷ 50 ∷ []))
      (start (some (49 ∷ 50 ∷ []) ∷ [])).os (start []).os (omega arith) (omega arith) refl refl
      cut_length

abbrev last_port : Handler
last_port = record handler { port = pos 65535 }

handle_connection_port_example :
    (handle_connection (record last_port { port = negsuc 0 }) world).1
    ≡ (handle_connection last_port world).1
handle_connection_port_example = handle_connection_port last_port (negsuc 0) refl world

name_field_lem_example :
    name_field (codes "Erez Drutin") ≡ some (padded 254 (codes "Erez Drutin") ++ (0 ∷ []))
name_field_lem_example = name_field_lem (codes "Erez Drutin")

-- There is no file under this name.
abbrev lost : Handler
lost = record handler { file_path = codes "lost" }

abbrev zero_report : Response
zero_report = record { version = 51; code = 2103; payload_size = 4; payload = little 4 0 }

reported_zero : received_crc zero_report.payload ≡ some 0
unfolding received_crc
reported_zero = refl

compare_crc_unreadable_example :
    OneMessage
      (Confirms (replicate 16 0))
      (printed cerr (codes "Cannot open input file " ++ (codes "lost" ++ (newline ∷ []))) ∷ [])
      (compare_crc lost (replicate 16 0) zero_report world).1.trace
compare_crc_unreadable_example =
    compare_crc_unreadable (λ n s. length-replicate n 0xcc) lost (replicate 16 0) zero_report world
      refl refl reported_zero

-- A registration as it is found by a receiver.
abbrev arrived : Arrived
arrived = (
  record {
    client_id = replicate 16 0;
    version = 51 ∷ [];
    code = 1025;
    payload_size = 3;
    payload = codes "Bob";
  },
  (refl, refl, omega arith, omega arith, refl),
)

arrive-IsEquiv_example :
    IsContr (Fiber (arrive (λ n. replicate n 0xcc) (λ n. length-replicate n 0xcc)) arrived)
arrive-IsEquiv_example =
    arrive-IsEquiv (λ n. replicate n 0xcc) (λ n. length-replicate n 0xcc) arrived
