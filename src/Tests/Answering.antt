-- ===== src/Tests/Answering.antt =====
-- A server that answers every request with 32 bytes, its codes in turn, and a run against it.
use mathlib.Core.Option.{some-injective}
use defensive_systems_open_u.Prelude.{
  ℕ, ◌+◌, ◌%◌, ◌^◌, ◌≤◌, ◌<◌, ◌≡◌, ◌≢◌, refl, sym, ap, ◌∙◌, arith, Bool, true, false, none, some,
  [], ◌∷◌, length, length-replicate, replicate, IsBytes, codes, ◌==◌, ==_iff, if◌then◌else◌,
}
use defensive_systems_open_u.Checksum.{int_max}
use defensive_systems_open_u.FileHandler.{transfer_info_path}
use defensive_systems_open_u.Main.{handle_client}
use defensive_systems_open_u.Protocol.Connection.{Handler, get_response}
use defensive_systems_open_u.Protocol.Connection.Reply.{reply_header, get_response-reply}
use defensive_systems_open_u.Protocol.Defined.Client.{handle_client_in_bounds}
use defensive_systems_open_u.Protocol.Defined.Upload.{ReadsFiles, HasChecksum}
use defensive_systems_open_u.Protocol.Message.{Response}
use defensive_systems_open_u.Runtime.Exec.{Result, ok, fault}
use defensive_systems_open_u.Runtime.Os.{Os}
use defensive_systems_open_u.Runtime.World.{World}
use defensive_systems_open_u.Tests.{example_text, transfer_text}
use defensive_systems_open_u.Tests.Script.{find_file, toy}

abbrev code_of : ℕ → ℕ
code_of turn =
    if turn % 4 == 0
    then 2100
    else if turn % 4 == 1
    then 2102
    else if turn % 4 == 2
    then 2103
    else 2104

-- The state counts the replies.
abbrev answering : Os
answering = record {
  State = ℕ;
  socket = λ s. (some 3, s);
  inet_pton = λ t. none;
  connect = λ fd port address s. (true, s);
  send = λ fd b s. (true, s);
  recv = λ fd n s. (
    some (if n == 7 then reply_header 3 (code_of s) 32 else replicate n 0),
    if n == 7 then s else s + 1,
  );
  read_file = λ path s.
      find_file path
        ((transfer_info_path, transfer_text) ∷ (codes "example.txt", example_text) ∷ []);
  write_file = λ path text s. some s;
  tellg = λ path s. some (length example_text);
  read = λ path n s. if n == length example_text then some example_text else none;
  exists = λ path s. some true;
  file_size = λ path s. some (length example_text);
  localtime = λ s. record { year = 2023; month = 11; day = 4; hour = 9; minute = 5; second = 0 };
  error_message = λ s. [];
  entropy = λ s. (7, s);
  garbage = λ n s. replicate n 0xcc;
  padding = λ s. 0;
}

code_of_fits : (turn : ℕ) → code_of turn < 2 ^ 16
code_of_fits turn = ground arith

example_text-IsBytes : IsBytes example_text
example_text-IsBytes = ground arith

reads : ReadsFiles answering
reads path n s b e = by_size (n == length example_text) refl e
  where
    by_size :
        (same : Bool)
        → (n == length example_text) ≡ same
        → (if same then some example_text else none) ≡ some b
        → (n ≤ int_max) × (n ≤ length b) × IsBytes b
    by_size true t found =
        let whole : n ≡ length example_text = (==_iff n (length example_text)).0 t in
        let it : example_text ≡ b = some-injective _ _ found in
        rw (sym it) (omega (arith, whole), omega (arith, whole), example_text-IsBytes)
    by_size false t found = cc

reports :
    (h : Handler) (v : World answering) (r : Response) → (get_response h v).0 ≡ ok r → HasChecksum r
reports h v r e coded = rw (sym (ap (λ r. r.payload) same)) (omega arith)
  where
    reply : Response
    reply = record {
      version = 51;
      code = code_of v.os;
      payload_size = 32;
      payload = replicate 32 0;
    }

    same : reply ≡ r
    same =
        let whole =
          get_response-reply h v 3 (code_of v.os) (replicate 32 0) v.os (v.os + 1)
            (code_of_fits v.os) (omega arith) refl refl in
        let both : ◌≡◌ {A = Result Response} (ok reply) (ok r) = sym (ap (λ p. p.0) whole) ∙ e in cc

abbrev run_start : World answering
run_start = record { os = 0; trace = [] }

handle_client_in_bounds_example : (handle_client toy run_start).0 ≢ fault
handle_client_in_bounds_example =
    handle_client_in_bounds toy run_start (λ n s. length-replicate n 0xcc) reads reports
