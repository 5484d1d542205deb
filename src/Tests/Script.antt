-- ===== src/Tests/Script.antt =====
-- A system and a library to run the client on: the replies of the server are a script, files are an
-- association list, and the cryptographic functions are simple ones that meet the documented laws.
use defensive_systems_open_u.Prelude.{
  ℕ, ◌-◌, ◌%◌, Bool, true, false, ◌&&◌, Option, none, some, List, [], ◌∷◌, ◌++◌, length, take,
  replicate, Bytes, codes, ◌==◌, if◌then◌else◌,
}
use defensive_systems_open_u.Runtime.Os.{Os}
use defensive_systems_open_u.Runtime.Library.{Library}

abbrev pub same_bytes : Bytes → Bytes → Bool
same_bytes [] [] = true
same_bytes [] (y ∷ ys) = false
same_bytes (x ∷ xs) [] = false
same_bytes (x ∷ xs) (y ∷ ys) = x == y && same_bytes xs ys

abbrev pub Files : Type 0
Files = List (Bytes × Bytes)

abbrev pub find_file : Bytes → Files → Option Bytes
find_file path [] = none
find_file path ((p, text) ∷ files) = if same_bytes p path then some text else find_file path files

pub record Script : Type 0 where
  pub replies : List (Option Bytes)
  pub files : Files
  pub read_only : Bool

abbrev pub next_reply : ℕ → Script → Option Bytes × Script
next_reply n s = elim s.replies [
  | [] ↦ (some [], s)
  | r ∷ rest ↦ (elim r [ none ↦ none | some b ↦ some (take n b) ], record s { replies = rest })
]

abbrev pub scripted : Os
scripted = record {
  State = Script;
  socket = λ s. (some 3, s);
  inet_pton = λ t. some (127 ∷ 0 ∷ 0 ∷ 1 ∷ []);
  connect = λ fd port address s. (true, s);
  send = λ fd b s. (true, s);
  recv = λ fd n s. next_reply n s;
  read_file = λ path s. find_file path s.files;
  write_file = λ path text s.
      if s.read_only then none else some (record s { files = (path, text) ∷ s.files });
  tellg = λ path s. elim (find_file path s.files) [ none ↦ none | some b ↦ some (length b) ];
  read = λ path n s. find_file path s.files;
  exists = λ path s. some (elim (find_file path s.files) [ none ↦ false | some b ↦ true ]);
  file_size = λ path s. elim (find_file path s.files) [ none ↦ none | some b ↦ some (length b) ];
  localtime = λ s. record { year = 2023; month = 11; day = 4; hour = 9; minute = 5; second = 0 };
  error_message = λ s. codes "Broken pipe";
  entropy = λ s. (7, s);
  garbage = λ n s. replicate n 0xcc;
  padding = λ s. 0;
}

-- There is one key, a cipher text is the plain text, and Base64 only ends the text with a newline.
abbrev pub toy : Library
toy = record {
  PrivateKey = Unit {0};
  PublicKey = Unit {0};
  initialize = λ seed bits. tt;
  public_of = λ k. k;
  save_private = λ k. codes "KEY";
  load_private = λ b. some tt;
  save_public = λ k. codes "KEY";
  load_public = λ b. some tt;
  rsa_encrypt = λ seed k plain. some plain;
  rsa_decrypt = λ k cipher. some cipher;
  base64_encode = λ s. s ++ (10 ∷ []);
  base64_decode = λ s. take (length s - 1) s;
  cbc_encrypt = λ key iv plain. plain;
  cbc_decrypt = λ key iv cipher. some cipher;
  generate_block = λ seed n. replicate n (seed % 256);
}
