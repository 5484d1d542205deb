-- ===== src/Protocol/Flow.antt =====
-- ProtocolHandler.cpp: `handleConnectionRequest`, `handleRSARegistration`, `handleRegistration` and
-- `handleReconnection`.
pub mod Identity
use defensive_systems_open_u.Prelude.{
  ℕ, ◌+◌, min, Bool, false, ◌++◌, length, take, drop, replicate, Bytes, codes, ltb, ◌==◌,
  if◌then◌else◌,
}
use defensive_systems_open_u.Constants.{
  registration, send_public_key, reconnect, name_field_size, registration_success,
  received_public_key_send_aes, approve_reconnect_send_aes, reconnect_rejected,
}
use defensive_systems_open_u.Buffer.{write_at, c_str}
use defensive_systems_open_u.Crypto.{generate_rsa_key_pair}
use defensive_systems_open_u.FileHandler.{save_me_info, save_private_rsa_key}
use defensive_systems_open_u.Logger
use defensive_systems_open_u.Protocol.Connection.{Handler, logger, send_request, get_response}
use defensive_systems_open_u.Protocol.Message.{Response}
use defensive_systems_open_u.Protocol.Payload.{name_field, public_key_payload}
use defensive_systems_open_u.Protocol.Upload.{new_request, handle_file_encryption_and_send}
use defensive_systems_open_u.Runtime.Os.{Os}
use defensive_systems_open_u.Runtime.Library.{Library}
use defensive_systems_open_u.Runtime.Exec.{out_of_range, pure, throw, gets, in_bounds, ◌>>=◌, ◌>>◌}
use defensive_systems_open_u.Runtime.World.{M}

module _ {O : Os} where
  -- The response, and the bytes at `clientId` with the start of the payload copied over them.
  unfoldable pub handle_connection_request : Handler → Bytes → ℕ → M O (Response × Bytes)
  unfolding name_field new_request send_request get_response write_at
  handle_connection_request h client_id code = do
    payload ← in_bounds (name_field h.client_name)
    request ← new_request (replicate 16 0) code name_field_size payload
    send_request h request
    response ← get_response h
    stored ←
        in_bounds (write_at 0 (take (min 16 (length response.payload)) response.payload) client_id)
    pure (response, stored)

  -- `payload.substr(16)`
  unfoldable pub substr16 : Bytes → M O Bytes
  substr16 payload =
      if ltb (length payload) 16
      then throw out_of_range (codes "basic_string::substr")
      else pure (drop 16 payload)

module _ {O : Os} (L : Library) where
  -- The response, and the private key.
  unfoldable pub handle_rsa_registration : Handler → Bytes → M O (Response × Bytes)
  unfolding generate_rsa_key_pair new_request public_key_payload save_private_rsa_key save_me_info
      send_request get_response
  handle_rsa_registration h client_id = do
    (public_key, private_key) ← generate_rsa_key_pair L
    heap ← gets (λ w. O.garbage (name_field_size + length public_key) w.os)
    payload ← in_bounds (public_key_payload h.client_name public_key heap)
    request ← new_request client_id send_public_key (name_field_size + length public_key) payload
    save_private_rsa_key private_key
    save_me_info L h.client_name request.client_id private_key
    send_request h request
    response ← get_response h
    pure (response, private_key)

  -- The steps that both flows end with: the keys, and the file.
  unfoldable pub handle_keys_and_file : Handler → Bytes → M O Bool
  unfolding handle_rsa_registration substr16 handle_file_encryption_and_send Logger.info
      Logger.server_error
  handle_keys_and_file h client_id = do
    (response, private_key) ← handle_rsa_registration h client_id
    if response.code == received_public_key_send_aes
        then (do
          Logger.info logger (
              codes
                "Successfully generated RSA pair and received valid status and AES key from server")
          Logger.info logger (codes "Attempting to encrypt file using AES key and send to server")
          encrypted_aes_key ← substr16 response.payload
          handle_file_encryption_and_send L h encrypted_aes_key private_key client_id)
        else (do
          Logger.server_error logger
              (codes "Received an invalid status from the server during RSA generation step")
          pure false)

  unfoldable pub handle_registration : Handler → M O Bool
  unfolding handle_connection_request handle_keys_and_file Logger.info Logger.server_error
  handle_registration h = do
    memory ← gets (λ w. O.garbage 16 w.os)
    Logger.info logger
        (codes "Starting registration flow for client " ++ (h.client_name ++ codes "..."))
    Logger.info logger (codes "Attempting to register " ++ (h.client_name ++ codes " to server"))
    (response, client_id) ← handle_connection_request h memory registration
    if response.code == registration_success
        then (do
          Logger.info logger
              (codes "successfully registered " ++ (h.client_name ++ codes " to server"))
          Logger.info logger (codes "Attempting to generate RSA pair and send public key to server")
          handle_keys_and_file h client_id)
        else (Logger.server_error logger (codes "Failed to register to the server") >> pure false)

  unfoldable pub handle_reconnection : Handler → M O Bool
  unfolding handle_connection_request handle_registration handle_keys_and_file Logger.info
      Logger.server_error
  handle_reconnection h = do
    memory ← gets (λ w. O.garbage 16 w.os)
    Logger.info logger
        (codes "Starting reconnection flow for client " ++ (h.client_name ++ codes "..."))
    (response, client_id) ← handle_connection_request h memory reconnect
    if response.code == reconnect_rejected
        then handle_registration h
        else (if response.code == approve_reconnect_send_aes
            then handle_keys_and_file h client_id
            else (Logger.server_error logger
                  (codes "failed to reconnect to the server - " ++ c_str response.payload)
                >> pure false))
