-- ===== src/Tests/Stubborn.antt =====
-- Servers whose checksums are all wrong, or cut off, and an upload to each.
use defensive_systems_open_u.Prelude.{
  ℕ, ◌+◌, ◌%◌, ◌^◌, ◌<◌, ◌≡◌, ◌≢◌, refl, ap, arith, true, false, Option, none, some, List, [], ◌∷◌,
  length, length-replicate, replicate, Bytes, ◌==◌, if◌then◌else◌,
}
use defensive_systems_open_u.Buffer.{little}
use defensive_systems_open_u.Checksum.Cksum.{cksum}
use defensive_systems_open_u.Checksum.Memcrc.{cksum-lt}
use defensive_systems_open_u.Protocol.Connection.Reply.{reply_header}
use defensive_systems_open_u.Protocol.Message.{Request}
use defensive_systems_open_u.Protocol.Message.Layout.{receive}
use defensive_systems_open_u.Protocol.Success.Refusal.{
  Turn, awaiting, reported, over, IsStubborn, handle_retry_send_file-refused,
}
use defensive_systems_open_u.Protocol.Success.Rules.{Runs}
use defensive_systems_open_u.Protocol.Success.Server.{Exchange}
use defensive_systems_open_u.Protocol.Success.Exchange.{as_received}
use defensive_systems_open_u.Protocol.Upload.{handle_retry_send_file}
use defensive_systems_open_u.Protocol.Upload.Short.{IsCutOff, handle_retry_send_file-short}
use defensive_systems_open_u.Runtime.Exec.{fault}
use defensive_systems_open_u.Runtime.Os.{Os}
use defensive_systems_open_u.Tests.{handler, id}

abbrev contents : Bytes
contents = 49 ∷ 50 ∷ []

-- The buffers that the server still owes, and how often it was told that it is wrong.
pub record Count : Type 0 where
  pub owed : List Bytes
  pub refusals : ℕ

abbrev wrong : ℕ
wrong = (cksum contents + 1) % 2 ^ 32

abbrev message : ℕ → Bytes → List Bytes
message code payload = reply_header 3 code (length payload) ∷ payload ∷ []

abbrev answer : ℕ → List Bytes
answer code = if code == 1028 then message 2103 (little 4 wrong) else message 2104 []

abbrev counted : ℕ → ℕ → ℕ
counted code n = if code == 1030 then n + 1 else n

abbrev take_owed : Count → List Bytes → Option Bytes × Count
take_owed s [] = (some [], s)
take_owed s (b ∷ rest) = (some b, record s { owed = rest })

abbrev stubborn : Os
stubborn = record {
  State = Count;
  socket = λ s. (some 3, s);
  inet_pton = λ t. none;
  connect = λ fd port address s. (true, s);
  send = λ fd b s.
      let r = receive b in
      (true, record { owed = answer r.code; refusals = counted r.code s.refusals });
  recv = λ fd n s. take_owed s s.owed;
  read_file = λ path s. some contents;
  write_file = λ path text s. some s;
  tellg = λ path s. some 2;
  read = λ path n s. some contents;
  exists = λ path s. some true;
  file_size = λ path s. some 2;
  localtime = λ s. record { year = 2023; month = 11; day = 4; hour = 9; minute = 5; second = 0 };
  error_message = λ s. [];
  entropy = λ s. (7, s);
  garbage = λ n s. replicate n 0xcc;
  padding = λ s. 0;
}

abbrev refusals_of : Turn → ℕ
refusals_of (awaiting n) = n
refusals_of (reported n) = n
refusals_of (over n) = n

record Waits (σ : Turn) (s : Count) : Type 0 where
  nothing : s.owed ≡ []
  told : s.refusals ≡ refusals_of σ

wrong-≢ : wrong ≢ cksum contents
wrong-≢ e = omega (arith, cksum-lt contents)

exchanged :
    (s : Count) (b : Bytes) (asked code : ℕ) (payload : Bytes) (Q : ℕ → Bytes → Count → Type 0)
    → (receive b).code ≡ asked
    → answer asked ≡ message code payload
    → code < 2 ^ 16
    → length payload < 2 ^ 32
    → Q code payload (record { owed = []; refusals = counted asked s.refusals })
    → Exchange stubborn 3 s b Q
exchanged s b asked code payload Q e answers hc hp good = record {
  accepted = refl;
  reply =
      rw (e, answers)
        (record {
          version = 3;
          code = code;
          payload = payload;
          between = record { owed = payload ∷ []; refusals = counted asked s.refusals };
          after = record { owed = []; refusals = counted asked s.refusals };
          code_fits = hc;
          size_fits = hp;
          header = refl;
          body = refl;
          good = good;
        });
}

server : IsStubborn stubborn 3 handler.file_path contents
server = record {
  In = Waits;
  length-garbage = λ n s. length-replicate n 0xcc;
  file = λ n s at. record { opens = refl; sized = refl; reads = refl };
  reports = λ n s b at code.
      exchanged s b 1028 2103 (little 4 wrong) _ code refl (omega arith) (omega arith)
        (refl, ([], wrong, refl, omega arith, wrong-≢, record { nothing = refl; told = at.told }));
  retries = λ n s b at code.
      exchanged s b 1030 2104 [] _ code refl (omega arith) (omega arith)
        (record { nothing = refl; told = ap (λ (n : ℕ). n + 1) at.told });
  ends = λ n s b at code.
      exchanged s b 1031 2104 [] _ code refl (omega arith) (omega arith)
        (record { nothing = refl; told = at.told });
}

abbrev upload : Request
upload = record {
  client_id = id;
  version = b'3';
  padding = 0;
  code = 1028;
  payload_size = 2;
  payload = contents;
}

waiting : server.In (awaiting 0) (record { owed = []; refusals = 0 })
unfolding server
waiting = record { nothing = refl; told = refl }

handle_retry_send_file-refused_example :
    Runs {O = stubborn}
      (handle_retry_send_file (record handler { socket = 3 }) upload 3 id)
      (record { owed = []; refusals = 0 })
      (λ a s'. (a ≡ false) × server.In (over 3) s')
handle_retry_send_file-refused_example =
    handle_retry_send_file-refused (record handler { socket = 3 }) contents server
      (omega arith, (omega arith, tt)) (omega arith) id refl upload
      (record { id_size = refl; code_fits = omega arith }) (omega arith) (omega arith) refl 3
      (record { owed = []; refusals = 0 }) waiting

-- It answers everything with two bytes where a checksum has four.
abbrev brief : Os
brief = record stubborn {
  send = λ fd b s. (true, record { owed = message 2103 contents; refusals = s.refusals });
}

brief-cut :
    (b : Bytes)
    → receive b ≡ as_received upload
    → Exchange brief 3
        (record { owed = []; refusals = 0 })
        b
        (λ code payload s'. IsCutOff code payload)
brief-cut b e = record {
  accepted = refl;
  reply = record {
    version = 3;
    code = 2103;
    payload = contents;
    between = record { owed = contents ∷ []; refusals = 0 };
    after = record { owed = []; refusals = 0 };
    code_fits = omega arith;
    size_fits = omega arith;
    header = refl;
    body = refl;
    good = (refl, omega arith);
  };
}

handle_retry_send_file-short_example :
    (handle_retry_send_file {O = brief}
      (record handler { socket = 3 })
      upload
      3
      id
      (record { os = record { owed = []; refusals = 0 }; trace = [] })).0
    ≡ fault
handle_retry_send_file-short_example =
    handle_retry_send_file-short (record handler { socket = 3 }) id (λ n s. length-replicate n 0xcc)
      upload (record { id_size = refl; code_fits = omega arith }) (omega arith) (omega arith)
      (record { owed = []; refusals = 0 }) brief-cut 2 []
