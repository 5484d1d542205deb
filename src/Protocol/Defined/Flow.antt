-- ===== src/Protocol/Defined/Flow.antt =====
-- The registration and the reconnection make no access out of bounds, in ProtocolHandler.cpp.
use defensive_systems_open_u.Prelude.{
  ℕ, ◌+◌, ◌≤◌, ◌≡◌, refl, ◌∙◌, arith, min, [], ◌∷◌, ◌++◌, length, length-append, take, replicate,
  Bytes, ◌==◌,
}
use defensive_systems_open_u.Buffer.{padded, write_at, read_at}
use defensive_systems_open_u.Buffer.Laws.{length-padded, length-write_at, read_at_fits}
use defensive_systems_open_u.Constants.{
  registration, send_public_key, reconnect, name_field_size, registration_success,
  received_public_key_send_aes, approve_reconnect_send_aes, reconnect_rejected,
}
use defensive_systems_open_u.Crypto.{generate_rsa_key_pair}
use defensive_systems_open_u.FileHandler.{save_me_info}
use defensive_systems_open_u.Protocol.Connection.{Handler, send_request, get_response}
use defensive_systems_open_u.Protocol.Defined.{
  Defined, Defined-pure, Defined-bind, Defined-in_bounds, Defined-if, Safe, Defined-after,
  safe_rules,
}
use defensive_systems_open_u.Runtime.Exec.{Any, ok, gets}
use defensive_systems_open_u.Protocol.Defined.Requests.{
  IsWhole, allocated, send_request-Defined, new_request-Defined, request-Defined,
}
use defensive_systems_open_u.Protocol.Defined.Rounds.{handle_file_encryption_and_send-Defined}
use defensive_systems_open_u.Protocol.Defined.Steps
use defensive_systems_open_u.Protocol.Defined.Upload.{ReadsFiles, HasChecksum}
use defensive_systems_open_u.Protocol.Flow.{
  handle_connection_request, handle_rsa_registration, handle_keys_and_file, handle_registration,
  handle_reconnection,
}
use defensive_systems_open_u.Protocol.Flow.Identity.{write_at-id}
use defensive_systems_open_u.Protocol.Message.{Response}
use defensive_systems_open_u.Protocol.Payload.{name_field, public_key_payload}
use defensive_systems_open_u.Protocol.Payload.Layout.{name_field_lem, public_key_payload_lem}
use defensive_systems_open_u.Protocol.Upload.{new_request}
use defensive_systems_open_u.Runtime.Library.{Library}
use defensive_systems_open_u.Runtime.Os.{Os}
use defensive_systems_open_u.Runtime.World.{World}

-- The id that is kept has sixteen bytes.
abbrev KeepsId : Response × Bytes → Type 0
KeepsId p = length p.1 ≡ 16

module _ {O : Os} (memory : (n : ℕ) (s : O.State) → length (O.garbage n s) ≡ n)
    (files : ReadsFiles O)
    (replies : (h : Handler) (w : World O) (r : Response)
      → (get_response h w).0 ≡ ok r
      → HasChecksum r)
    (L : Library) (h : Handler) where
  handle_connection_request-Defined :
      (id : Bytes) (code : ℕ)
      → length id ≡ 16
      → Defined {O = O} (handle_connection_request h id code) KeepsId
  unfolding handle_connection_request
  handle_connection_request-Defined id code h16 =
      Defined-in_bounds (name_field h.client_name) _ _ (name_field_lem h.client_name) (
        request-Defined memory h (replicate 16 0) code name_field_size
          (padded 254 h.client_name ++ (0 ∷ [])) _ _ refl
          (omega (
            arith,
            length-append (padded 254 h.client_name) (0 ∷ []),
            length-padded 254 h.client_name,
          ))
          (Defined-after (get_response h) _ _ (Steps.Safe-get_response h) λ r.
            let stored = write_at-id r.payload id h16 in
            Defined-in_bounds (write_at 0 (take (min 16 (length r.payload)) r.payload) id) _ _
              stored (Defined-pure _ KeepsId (length-write_at 0 _ id stored ∙ h16))))

  save_me_info-Defined :
      (id key : Bytes) → length id ≡ 16 → Defined {O = O} (save_me_info L h.client_name id key) Any
  unfolding save_me_info
  save_me_info-Defined id key h16 =
      Defined-in_bounds (read_at 0 16 id) _ _ (read_at_fits 0 16 id (omega arith))
        (Safe.safe (search Steps.Safe-write_to_file))

  handle_rsa_registration-Defined :
      (id : Bytes) → length id ≡ 16 → Defined {O = O} (handle_rsa_registration L h id) Any
  unfolding handle_rsa_registration
  handle_rsa_registration-Defined id h16 =
      Defined-after (generate_rsa_key_pair L) _ _ (search Steps.Safe-generate_rsa_key_pair) λ keys.
        Defined-bind (gets (λ w. O.garbage (name_field_size + length keys.0) w.os)) _
          (λ heap. length heap ≡ name_field_size + length keys.0) _ (allocated memory _)
          λ heap room.
            Defined-in_bounds (public_key_payload h.client_name keys.0 heap) _ _
              (public_key_payload_lem h.client_name keys.0 heap room)
              (Defined-bind (new_request id send_public_key _ _) _ IsWhole _
                (new_request-Defined memory id send_public_key _ _ h16 (size keys.0))
                λ r whole. Defined-after _ _ _ (search Steps.Safe-save_private_rsa_key) λ _.
                  Defined-bind (save_me_info L h.client_name r.client_id keys.1) _ Any _
                    (save_me_info-Defined r.client_id keys.1 whole.id_size)
                    λ _ _.
                      Defined-bind (send_request h r) _ Any _
                        (send_request-Defined memory h r whole)
                        λ _ _. Safe.safe (search (safe_rules, Steps.Safe-get_response)))
    where
      size :
          (key : Bytes)
          → name_field_size + length key
            ≤ length (padded 254 h.client_name ++ ((0 ∷ []) ++ padded (length key) key))
      size key = omega (
        arith,
        length-append (padded 254 h.client_name) ((0 ∷ []) ++ padded (length key) key),
        length-padded 254 h.client_name,
        length-padded (length key) key,
      )

  handle_keys_and_file-Defined :
      (id : Bytes) → length id ≡ 16 → Defined {O = O} (handle_keys_and_file L h id) Any
  unfolding handle_keys_and_file
  handle_keys_and_file-Defined id h16 =
      Defined-bind (handle_rsa_registration L h id) _ Any _ (handle_rsa_registration-Defined id h16)
        λ a _.
          Defined-if (a.0.code == received_public_key_send_aes) _ _ _
            (Defined-after _ _ _ (search Steps.Safe-info) λ _.
              Defined-after _ _ _ (search Steps.Safe-info) λ _.
                Defined-after _ _ _ (search Steps.Safe-substr16) λ key.
                  handle_file_encryption_and_send-Defined memory files replies h id h16 L key a.1)
            (Safe.safe (search (safe_rules, Steps.Safe-server_error)))

  pub handle_registration-Defined : Defined {O = O} (handle_registration L h) Any
  unfolding handle_registration
  handle_registration-Defined =
      Defined-bind (gets (λ w. O.garbage 16 w.os)) _ (λ id. length id ≡ 16) _ (allocated memory 16)
        λ id h16. Defined-after _ _ _ (search Steps.Safe-info) λ _.
          Defined-after _ _ _ (search Steps.Safe-info) λ _.
            Defined-bind (handle_connection_request h id registration) _ KeepsId _
              (handle_connection_request-Defined id registration h16)
              λ a kept.
                Defined-if (a.0.code == registration_success) _ _ _
                  (Defined-after _ _ _ (search Steps.Safe-info) λ _.
                    Defined-after _ _ _ (search Steps.Safe-info)
                      λ _. handle_keys_and_file-Defined a.1 kept)
                  (Safe.safe (search (safe_rules, Steps.Safe-server_error)))

  pub handle_reconnection-Defined : Defined {O = O} (handle_reconnection L h) Any
  unfolding handle_reconnection
  handle_reconnection-Defined =
      Defined-bind (gets (λ w. O.garbage 16 w.os)) _ (λ id. length id ≡ 16) _ (allocated memory 16)
        λ id h16. Defined-after _ _ _ (search Steps.Safe-info) λ _.
          Defined-bind (handle_connection_request h id reconnect) _ KeepsId _
            (handle_connection_request-Defined id reconnect h16)
            λ a kept.
              Defined-if (a.0.code == reconnect_rejected) _ _ _ handle_registration-Defined (
                Defined-if (a.0.code == approve_reconnect_send_aes) _ _ _
                  (handle_keys_and_file-Defined a.1 kept)
                  (Safe.safe (search (safe_rules, Steps.Safe-server_error))))
