-- ===== src/Protocol/Payload.antt =====
-- ProtocolHandler.cpp: the payloads that the requests carry, built in fresh memory.
pub mod Layout
use defensive_systems_open_u.Prelude.{◌+◌, ◌-◌, Option, length, replicate, Bytes}
use defensive_systems_open_u.Checksum.{◌>>=◌}
use defensive_systems_open_u.Constants.{name_field_size}
use defensive_systems_open_u.Buffer.{write_at, padded, terminated, big32}

-- `createFilePayloadBuffer`: 4 bytes for the content's size, 255 for the file's name, the content,
-- and a byte for the zero that `strcpy` writes. `heap` is what the new memory holds.
unfoldable pub create_file_payload_buffer : Bytes → Bytes → Bytes → Option Bytes
unfolding write_at padded terminated
create_file_payload_buffer file_name content heap = do
  zeroed ← write_at 0 (replicate (4 + 255 + length content) 0) heap
  sized ← write_at 0 (big32 (length content)) zeroed
  named ← write_at 4 (padded 255 file_name) sized
  write_at (4 + 255) (terminated content) named

-- The name field of a connection request: a vector of zeros with the name, cut to 254 bytes.
unfoldable pub name_field : Bytes → Option Bytes
unfolding write_at padded
name_field client_name =
    write_at 0 (padded (name_field_size - 1) client_name) (replicate name_field_size 0)

-- The payload of `handleRSARegistration`: the name field and the public key.
unfoldable pub public_key_payload : Bytes → Bytes → Bytes → Option Bytes
unfolding write_at padded
public_key_payload client_name public_key heap = do
  zeroed ← write_at 0 (replicate (name_field_size + length public_key) 0) heap
  named ← write_at 0 (padded (name_field_size - 1) client_name) zeroed
  write_at name_field_size (padded (length public_key) public_key) named

-- The payload of `sendCRCStatusRequest`: the path and a zero.
unfoldable pub status_payload : Bytes → Bytes → Option Bytes
unfolding write_at terminated
status_payload file_path heap = write_at 0 (terminated file_path) heap
