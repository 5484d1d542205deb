-- ===== src/Tests/Server.antt =====
-- A server that does its part, behind a system with files in memory.
use mathlib.Core.Option.{some-injective}
use defensive_systems_open_u.Prelude.{
  ℕ, ◌^◌, ◌<◌, ◌≡◌, refl, sym, ap, arith, Bool, true, false, Option, none, some, List, [], ◌∷◌,
  ◌++◌, length, length-replicate, drop, replicate, Bytes, codes, ◌==◌, if◌then◌else◌,
}
use defensive_systems_open_u.Prelude.Int.{pos}
use defensive_systems_open_u.Buffer.{little}
use defensive_systems_open_u.Checksum.Cksum.{cksum}
use defensive_systems_open_u.Crypto.Hex.{unhex}
use defensive_systems_open_u.FileHandler.{TransferInfo, transfer_info_path}
use defensive_systems_open_u.Protocol.Connection.Reply.{reply_header}
use defensive_systems_open_u.Protocol.Message.Layout.{receive}
use defensive_systems_open_u.Protocol.Success.Server.{Session, Replied, Exchange, IsServer}
use defensive_systems_open_u.Runtime.Os.{Os}
use defensive_systems_open_u.Runtime.World.{World}
use defensive_systems_open_u.Tests.{example_text, id, transfer_text}
use defensive_systems_open_u.Tests.Script.{Files, find_file, toy}

-- The buffers that the server still owes, and the client's files.
pub record Peer : Type 0 where
  pub owed : List Bytes
  pub files : Files
  pub knows_client : Bool

abbrev message : ℕ → Bytes → List Bytes
message code payload = reply_header 3 code (length payload) ∷ payload ∷ []

-- The answer to a request with this code and payload.
abbrev answer : Bool → ℕ → Bytes → List Bytes
answer knows code payload =
    if code == 1027
    then (if knows then message 2105 id else message 2106 [])
    else if code == 1025
    then message 2100 id
    else if code == 1026
    then message 2102 (id ++ id)
    else if code == 1028
    then message 2103 (little 4 (cksum (drop 16 (unhex (drop 259 payload)))))
    else message 2104 []

abbrev take_owed : Peer → List Bytes → Option Bytes × Peer
take_owed s [] = (some [], s)
take_owed s (b ∷ rest) = (some b, record s { owed = rest })

abbrev pub peer : Os
peer = record {
  State = Peer;
  socket = λ s. (some 3, s);
  inet_pton = λ t. some (127 ∷ 0 ∷ 0 ∷ 1 ∷ []);
  connect = λ fd port address s. (true, s);
  send = λ fd b s.
      let r = receive b in (true, record s { owed = answer s.knows_client r.code r.payload });
  recv = λ fd n s. take_owed s s.owed;
  read_file = λ path s. find_file path s.files;
  write_file = λ path text s. some (record s { files = (path, text) ∷ s.files });
  tellg = λ path s. elim (find_file path s.files) [ none ↦ none | some b ↦ some (length b) ];
  read = λ path n s. find_file path s.files;
  exists = λ path s. some (elim (find_file path s.files) [ none ↦ false | some b ↦ true ]);
  file_size = λ path s. elim (find_file path s.files) [ none ↦ none | some b ↦ some (length b) ];
  localtime = λ s. record { year = 2023; month = 11; day = 4; hour = 9; minute = 5; second = 0 };
  error_message = λ s. [];
  entropy = λ s. (7, s);
  garbage = λ n s. replicate n 0xcc;
  padding = λ s. 0;
}

abbrev pub info : TransferInfo
info = record {
  ip_address = codes "0.0.0.0";
  port = pos 8080;
  name = codes "Erez Drutin";
  file_path = codes "example.txt";
}

-- What the server knows of the client at the start.
abbrev pub Knowledge : Session → Bool → Type 0
Knowledge Session.fresh knows = knows ≡ false
Knowledge (Session.known i) knows = (knows ≡ true) × (i ≡ id)
Knowledge _ knows = Unit {0}

pub record Ready (σ : Session) (s : Peer) : Type 0 where
  pub nothing : s.owed ≡ []
  pub held : find_file (codes "example.txt") s.files ≡ some example_text
  pub knowledge : Knowledge σ s.knows_client

-- The reply that is owed is read in two calls.
pub replied :
    (s : Peer) (code : ℕ) (payload : Bytes) (Q : ℕ → Bytes → Peer → Type 0)
    → code < 2 ^ 16
    → length payload < 2 ^ 32
    → Q code payload (record s { owed = [] })
    → Replied peer 3 (record s { owed = message code payload }) Q
replied s code payload Q hc hp good = record {
  version = 3;
  code = code;
  payload = payload;
  between = record s { owed = payload ∷ [] };
  after = record s { owed = [] };
  code_fits = hc;
  size_fits = hp;
  header = refl;
  body = refl;
  good = good;
}

pub exchanged :
    (s : Peer) (b : Bytes) (asked code : ℕ) (payload : Bytes) (Q : ℕ → Bytes → Peer → Type 0)
    → (receive b).code ≡ asked
    → answer s.knows_client asked (receive b).payload ≡ message code payload
    → code < 2 ^ 16
    → length payload < 2 ^ 32
    → Q code payload (record s { owed = [] })
    → Exchange peer 3 s b Q
exchanged s b asked code payload Q e answers hc hp good = record {
  accepted = refl;
  reply = rw (e, answers) (replied s code payload Q hc hp good);
}

unfoldable pub serving : (name : Bytes) → IsServer peer toy 3 name info.file_path example_text
serving name = record {
  In = Ready;
  length-garbage = λ n s. length-replicate n 0xcc;
  file = λ σ s at. record {
    opens = at.held;
    sized = ap (λ o. elim o [ none ↦ none | some b ↦ some (length b) ]) at.held;
    reads = at.held;
  };
  after_entropy = λ σ s at. at;
  saves_key = λ σ s text at.
      (_, refl, record { nothing = at.nothing; held = at.held; knowledge = at.knowledge });
  saves_me = λ σ s text at.
      (_, refl, record { nothing = at.nothing; held = at.held; knowledge = at.knowledge });
  registers = λ s b at code payload.
      exchanged s b 1025 2100 id _ code refl (omega arith) (omega arith)
        (refl, refl, record { nothing = refl; held = at.held; knowledge = tt });
  reconnects = λ s b i at code payload.
      exchanged s b 1027 2105 id _ code
        (ap (λ (k : Bool). if k then message 2105 id else message 2106 []) at.knowledge.0)
        (omega arith) (omega arith)
        (
          refl,
          ap length at.knowledge.1,
          omega arith,
          sym at.knowledge.1,
          record { nothing = refl; held = at.held; knowledge = tt },
        );
  rejects = λ s b at code payload.
      exchanged s b 1027 2106 [] _ code
        (ap (λ (k : Bool). if k then message 2105 id else message 2106 []) at.knowledge)
        (omega arith) (omega arith)
        (refl, record { nothing = refl; held = at.held; knowledge = at.knowledge });
  sends_key = λ s b i key at code client_id payload.
      exchanged s b 1026 2102 (id ++ id) _ code refl (omega arith) (omega arith) (
        refl,
        (id, 0, refl, omega arith, refl, record { nothing = refl; held = at.held; knowledge = tt }),
      );
  reports = λ s b i aes plain at code client_id name plain_text.
      exchanged s b 1028 2103 (little 4 (cksum (drop 16 (unhex (drop 259 (receive b).payload))))) _
        code refl (omega arith) (omega arith)
        (
          refl,
          (
            [],
            ap (λ (p : Bytes). little 4 (cksum p)) (some-injective _ _ plain_text),
            record { nothing = refl; held = at.held; knowledge = tt },
          ),
        );
  confirms = λ s b i at code client_id.
      exchanged s b 1029 2104 [] _ code refl (omega arith) (omega arith)
        (refl, record { nothing = refl; held = at.held; knowledge = tt });
}

abbrev pub start : Files → Bool → World peer
start saved knows = record {
  os = record {
    owed = [];
    files =
        saved ++ ((transfer_info_path, transfer_text) ∷ (codes "example.txt", example_text) ∷ []);
    knows_client = knows;
  };
  trace = [];
}
