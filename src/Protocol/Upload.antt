-- ===== src/Protocol/Upload.antt =====
-- ProtocolHandler.cpp: `sendCRCStatusRequest`, `handleRetrySendFile` and
-- `handleFileEncryptionAndSend`.
pub mod Integrity
pub mod Rounds
pub mod Short
pub mod Unreadable
use defensive_systems_open_u.Prelude.{
  ℕ, zero, suc, ◌+◌, ◌-◌, ◌%◌, ◌^◌, Bool, true, false, Option, none, some, length, drop, Bytes,
  codes, ltb, ◌==◌, if◌then◌else◌,
}
use defensive_systems_open_u.Constants.{
  protocol_version, send_file, crc_correct, crc_incorrect_resend, crc_incorrect_done,
  file_received_crc_ok, confirm_msg,
}
use defensive_systems_open_u.Buffer.{read_at, little_value}
use defensive_systems_open_u.Checksum.File.{read_crc}
use defensive_systems_open_u.Crypto.{encrypt_with_aes, decrypt_with_rsa}
use defensive_systems_open_u.FileHandler.{read_file_contents}
use defensive_systems_open_u.Logger
use defensive_systems_open_u.Protocol.Connection.{Handler, logger, send_request, get_response}
use defensive_systems_open_u.Protocol.Message.{Request, Response}
use defensive_systems_open_u.Protocol.Payload.{create_file_payload_buffer, status_payload}
use defensive_systems_open_u.Runtime.Os.{Os}
use defensive_systems_open_u.Runtime.Library.{Library}
use defensive_systems_open_u.Runtime.Exec.{pure, gets, in_bounds, ◌>>=◌, ◌>>◌}
use defensive_systems_open_u.Runtime.World.{World, M}

-- The last four bytes of a payload, as the host reads a `uint32_t` there. Where there are fewer, the
-- index wraps around and the access is out of bounds.
unfoldable pub received_crc : Bytes → Option ℕ
unfolding read_at
received_crc payload =
    if ltb (length payload) 4 then none else some (little_value (drop (length payload - 4) payload))

module _ {O : Os} where
  -- A request for a client id of sixteen bytes.
  unfoldable pub new_request : Bytes → ℕ → ℕ → Bytes → M O Request
  unfolding read_at
  new_request client_id code size payload = do
    id ← in_bounds (read_at 0 16 client_id)
    pad ← gets (λ w. O.padding w.os)
    pure (record {
      client_id = id;
      version = protocol_version;
      padding = pad;
      code = code;
      payload_size = size % 2 ^ 32;
      payload = payload;
    })

  unfoldable pub send_crc_status_request : Handler → Bytes → ℕ → M O Bool
  unfolding new_request status_payload send_request get_response
  send_crc_status_request h client_id code = do
    heap ← gets (λ w. O.garbage (length h.file_path + 1) w.os)
    payload ← in_bounds (status_payload h.file_path heap)
    request ← new_request client_id code (length h.file_path + 1) payload
    send_request h request
    response ← get_response h
    pure (response.code == confirm_msg)

  -- The checksums agree: the status with which the loop ends.
  unfoldable pub accept_upload : Handler → Bytes → M O (Option Bool)
  unfolding send_crc_status_request Logger.info Logger.server_error
  accept_upload h client_id = do
    Logger.info logger (codes "CRC Match, Responding with CRC Correct status to server")
    accepted ← send_crc_status_request h client_id crc_correct
    if accepted
        then (Logger.info logger (codes "Successfully finished Client's file sending flow")
            >> pure (some true))
        else (Logger.server_error logger
              (codes "Failed to finish Client's file sending flow - server didn't accept message.")
            >> pure (some false))

  -- They differ: the loop goes on.
  unfoldable pub refuse_upload : Handler → Bytes → M O (Option Bool)
  unfolding send_crc_status_request Logger.error
  refuse_upload h client_id = do
    Logger.error logger
        (codes "CRC not matching, Responding with CRC Incorrect status to server...")
    accepted ← send_crc_status_request h client_id crc_incorrect_resend
    pure none

  -- The branch of the loop where the server has sent its checksum: the status with which the loop
  -- ends, none if it goes on.
  unfoldable pub compare_crc : Handler → Bytes → Response → M O (Option Bool)
  unfolding received_crc read_crc accept_upload refuse_upload
  compare_crc h client_id response = do
    received ← in_bounds (received_crc response.payload)
    calculated ← read_crc h.file_path
    if received == calculated then accept_upload h client_id else refuse_upload h client_id

  -- One round of the loop.
  unfoldable pub attempt : Handler → Request → Bytes → M O (Option Bool)
  unfolding send_request get_response compare_crc
  attempt h encrypted_content client_id = do
    send_request h encrypted_content
    response ← get_response h
    if response.code == file_received_crc_ok then compare_crc h client_id response else pure none

  -- `break` with a status, or the rest of the loop.
  unfoldable pub break_or : M O (Option Bool) → Option Bool → M O (Option Bool)
  break_or again none = again
  break_or again (some status) = pure (some status)

  -- The loop with `left` rounds to go: the status, none if every round was used up, so that
  -- `retry_count == maxRetries`.
  unfoldable pub retry_loop : ℕ → Handler → Request → Bytes → M O (Option Bool)
  unfolding attempt break_or
  retry_loop zero h encrypted_content client_id = pure none
  retry_loop (suc left) h encrypted_content client_id =
      let again = retry_loop left h encrypted_content client_id in
      attempt h encrypted_content client_id >>= break_or again

  -- What follows the loop.
  unfoldable pub after_loop : Handler → Bytes → Option Bool → M O Bool
  unfolding send_crc_status_request Logger.server_error
  after_loop h client_id (some status) = pure status
  after_loop h client_id none = do
    Logger.server_error logger
        (codes "reached max retries but wasn't able to successfully upload file to server")
    accepted ← send_crc_status_request h client_id crc_incorrect_done
    pure false

  unfoldable pub handle_retry_send_file : Handler → Request → ℕ → Bytes → M O Bool
  unfolding retry_loop after_loop
  handle_retry_send_file h encrypted_content max_retries client_id =
      retry_loop max_retries h encrypted_content client_id >>= after_loop h client_id

module _ {O : Os} (L : Library) where
  unfoldable pub handle_file_encryption_and_send : Handler → Bytes → Bytes → Bytes → M O Bool
  unfolding decrypt_with_rsa read_file_contents encrypt_with_aes create_file_payload_buffer
      new_request handle_retry_send_file
  handle_file_encryption_and_send h encrypted_aes_key private_key client_id = do
    aes_key ← decrypt_with_rsa L encrypted_aes_key private_key
    file_contents ← read_file_contents h.file_path
    encrypted_content ← encrypt_with_aes L file_contents aes_key
    heap ← gets (λ w. O.garbage (4 + 255 + length encrypted_content + 1) w.os)
    payload ← in_bounds (create_file_payload_buffer h.file_path encrypted_content heap)
    request ← new_request client_id send_file (4 + 255 + length encrypted_content) payload
    handle_retry_send_file h request 3 client_id
