-- ===== src/Runtime/Os.antt =====
-- The operating system and the C++ runtime, as far as the client calls them. Every function reads
-- or changes a state of which nothing is assumed here.
use defensive_systems_open_u.Prelude.{ℕ, Bool, Option, Bytes}

-- `struct tm`, the year in full.
pub record Tm : Type 0 where
  pub year : ℕ
  pub month : ℕ
  pub day : ℕ
  pub hour : ℕ
  pub minute : ℕ
  pub second : ℕ

pub record Os : Type 1 where
  pub State : Type 0
  -- `socket`: none is -1
  pub socket : State → Option ℕ × State
  -- `inet_pton`: the four bytes of an address, none if the text is no address
  pub inet_pton : Bytes → Option Bytes
  -- `connect` to a port and an address in network byte order: false is a negative result
  pub connect : ℕ → Bytes → Bytes → State → Bool × State
  -- `send`: false is -1
  pub send : ℕ → Bytes → State → Bool × State
  -- `recv` of at most so many bytes: none is -1
  pub recv : ℕ → ℕ → State → Option Bytes × State
  -- the contents of a file that can be opened for reading
  pub read_file : Bytes → State → Option Bytes
  -- opening a file for writing, which empties it, and writing: none if it cannot be opened
  pub write_file : Bytes → Bytes → State → Option State
  -- the end position of an open file: none is -1
  pub tellg : Bytes → State → Option ℕ
  -- reading so many bytes from the start of an open file: none if the stream fails
  pub read : Bytes → ℕ → State → Option Bytes
  -- `std::filesystem::exists`: none is a `filesystem_error`
  pub exists : Bytes → State → Option Bool
  -- `std::filesystem::file_size`: none is a `filesystem_error`
  pub file_size : Bytes → State → Option ℕ
  -- the local time
  pub localtime : State → Tm
  -- the message of `errno`
  pub error_message : State → Bytes
  -- a seed from the system's entropy
  pub entropy : State → ℕ × State
  -- what so many bytes of uninitialised memory hold
  pub garbage : ℕ → State → Bytes
  -- the byte between `version` and `code` of a `Request`
  pub padding : State → ℕ
