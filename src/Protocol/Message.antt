-- ===== src/Protocol/Message.antt =====
-- ProtocolHandler.h, `Request` and `Response`, and their bytes on the wire. The host is
-- little-endian with the usual alignment: a `Request` has its payload pointer at offset 24, behind
-- sixteen bytes of client id, the version, a byte of padding, the code and the payload's size.
pub mod Layout
pub mod Wire
use defensive_systems_open_u.Prelude.{
  ℕ, ◌+◌, ◌%◌, ◌^◌, Option, none, some, List, [], ◌∷◌, ◌++◌, take, drop, Bytes,
}
use defensive_systems_open_u.Checksum.{◌>>=◌}
use defensive_systems_open_u.Buffer.{write_at, read_at, little, little_value, big_value}

pub record Request : Type 0 where
  pub client_id : Bytes
  pub version : ℕ
  pub padding : ℕ
  pub code : ℕ
  pub payload_size : ℕ
  pub payload : Bytes

pub record Response : Type 0 where
  pub version : ℕ
  pub code : ℕ
  pub payload_size : ℕ
  pub payload : Bytes

-- `sizeof(Request) - sizeof(request.payload)`
abbrev pub header_size : ℕ
header_size = 24

-- The memory of a `Request` before its payload pointer.
unfoldable pub header : Request → Bytes
header r = r.client_id ++ (r.version ∷ r.padding ∷ (little 2 r.code ++ little 4 r.payload_size))

-- The buffer of `sendRequest`, built in memory that holds `heap`.
unfoldable pub serialise : Request → Bytes → Option Bytes
unfolding header write_at read_at
serialise r heap = do
  with_header ← write_at 0 (header r) heap
  payload ← read_at 0 r.payload_size r.payload
  write_at header_size payload with_header

-- `version (1 byte) + code (2 bytes) + payloadSize (4 bytes)`
abbrev pub response_header_size : ℕ
response_header_size = 7

-- The fields in the seven bytes of a response's header, the payload left as it was.
unfoldable pub parse_header : Bytes → Response → Response
parse_header b r = record r {
  version = (big_value (take 1 b) + b'0') % 256;
  code = big_value (take 2 (drop 1 b));
  payload_size = big_value (take 4 (drop 3 b));
}

-- A `Response` that was declared and not initialised, over the eight bytes that its members occupy:
-- version, a byte of padding, code, payload size. The string is empty.
unfoldable pub uninitialised : Bytes → Response
uninitialised memory = record {
  version = little_value (take 1 memory);
  code = little_value (take 2 (drop 2 memory));
  payload_size = little_value (take 4 (drop 4 memory));
  payload = [];
}
