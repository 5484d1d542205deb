-- ===== src/Protocol/Events/Flow.antt =====
-- What the registration and the reconnection show to the outside, in ProtocolHandler.cpp.
use defensive_systems_open_u.Prelude.{
  ℕ, ◌^◌, ◌<◌, ◌≡◌, refl, sym, ap, ◌∙◌, inl, inr, arith, [], take, length, replicate, Bytes, ◌==◌,
}
use defensive_systems_open_u.Buffer.Laws.{take_all}
use defensive_systems_open_u.FileHandler.{me_info_text}
use defensive_systems_open_u.Constants.{
  registration, send_public_key, reconnect, name_field_size, registration_success,
  received_public_key_send_aes, approve_reconnect_send_aes, reconnect_rejected,
}
use defensive_systems_open_u.Protocol.Connection.{Handler}
use defensive_systems_open_u.Protocol.Events.{IsAnonymous, plain-IsAnonymous, plain-IsIdentified}
use defensive_systems_open_u.Protocol.Events.Conversation.{
  Speaks, Speaks-forget, Speaks-if, Speaks-identified, Speaks-bind, Speaks-then, Speaks-after,
  Speaks-Quiet,
}
use defensive_systems_open_u.Protocol.Events.Saves.{save_private_rsa_key-Makes, save_me_info-Makes}
use defensive_systems_open_u.Protocol.Events.Requests.{
  IsFramed, send_request-Makes, new_request-Makes, request-Makes,
}
use defensive_systems_open_u.Protocol.Events.Rules.{
  Makes, Makes-bind, Makes-if, Makes-Quiet, Makes-after, Makes-then,
}
use defensive_systems_open_u.Runtime.Exec.{Any}
use defensive_systems_open_u.Protocol.Events.Upload.{handle_file_encryption_and_send-Makes}
use defensive_systems_open_u.Protocol.Flow.{
  handle_connection_request, handle_rsa_registration, handle_keys_and_file, handle_registration,
  handle_reconnection,
}
use defensive_systems_open_u.Protocol.Quiet.{quiet_rules}
use defensive_systems_open_u.Protocol.Quiet.Steps
use defensive_systems_open_u.Protocol.Quiet.Steps.{quiet_steps}
use defensive_systems_open_u.Protocol.Upload.{new_request}
use defensive_systems_open_u.Runtime.Library.{Library}
use defensive_systems_open_u.Runtime.Os.{Os}

module _ {O : Os} (memory : (n : ℕ) (s : O.State) → length (O.garbage n s) ≡ n) where
  handle_connection_request-Makes :
      (port address : Bytes) (h : Handler) (id : Bytes) (code : ℕ)
      → code < 2 ^ 16
      → Makes {O = O} (IsAnonymous port address) (handle_connection_request h id code) Any
  unfolding handle_connection_request
  handle_connection_request-Makes port address h id code fits =
      let plain = plain-IsAnonymous port address in
      Makes-after _ plain _ _ _ (search quiet_rules) λ payload.
        request-Makes _ plain (replicate 16 0) (λ b whole zeros. (whole, zeros)) memory h code
          name_field_size payload _ _ fits
          (Makes-Quiet _ plain _ (search (quiet_rules, Steps.Quiet-get_response)))

module _ {O : Os} (L : Library) (port address : Bytes)
    (memory : (n : ℕ) (s : O.State) → length (O.garbage n s) ≡ n) (h : Handler) where
  -- Both files say what the request says.
  handle_rsa_registration-Speaks :
      (id : Bytes)
      → Speaks L port address h.client_name {O = O}
          (handle_rsa_registration L h id)
          (λ own. own ≡ take 16 id)
  unfolding handle_rsa_registration
  handle_rsa_registration-Speaks id =
      Speaks-after _ (take 16 id) refl _ _ (Steps.Quiet-generate_rsa_key_pair L) λ keys.
        let plain = plain-IsIdentified L h.client_name (take 16 id) keys.1 in
        Speaks-identified (take 16 id) keys.1 _ _ refl (
          Makes-after _ plain _ _ _ (search quiet_rules) λ heap.
            Makes-after _ plain _ _ _ (search quiet_rules) λ payload.
              Makes-bind _ (new_request id send_public_key _ payload) _ (IsFramed id) _
                (new_request-Makes _ plain id (λ b whole own. (whole, own)) memory send_public_key _
                  payload (omega arith))
                λ r framed.
                  Makes-then _ _ _ _ (save_private_rsa_key-Makes _ plain keys.1 (inr (refl, refl)))
                    λ _.
                      Makes-then _ _ _ _
                        (save_me_info-Makes _ plain L h.client_name r.client_id keys.1 (
                          inl (
                            refl,
                            ap (λ t. me_info_text h.client_name t (L.base64_encode keys.1))
                                (take_all r.client_id 16 framed.is.id_size ∙ framed.owner),
                          )))
                        λ _.
                          Makes-then _ _ _ _
                            (send_request-Makes _ plain id (λ b whole own. (whole, own)) memory h r
                              framed)
                            λ _.
                              Makes-Quiet _ plain _
                                (search (quiet_rules, Steps.Quiet-get_response)))

  handle_keys_and_file-Speaks :
      (id : Bytes) → Speaks L port address h.client_name {O = O} (handle_keys_and_file L h id) Any
  unfolding handle_keys_and_file
  handle_keys_and_file-Speaks id =
      Speaks-forget _ (λ own. own ≡ take 16 id)
        (Speaks-bind (handle_rsa_registration L h id) _ _ (handle_rsa_registration-Speaks id)
          λ own key named a.
            let plain = plain-IsIdentified L h.client_name own key in
            Makes-if _ (a.0.code == received_public_key_send_aes) _ _ _
              (Makes-after _ plain _ _ _ (search Steps.Quiet-info) λ _.
                Makes-after _ plain _ _ _ (search Steps.Quiet-info) λ _.
                  Makes-after _ plain _ _ _ (search Steps.Quiet-substr16) λ encrypted.
                    handle_file_encryption_and_send-Makes _ plain id
                      (λ b whole e. (whole, e ∙ sym named)) memory L h encrypted a.1)
              (Makes-Quiet _ plain _ (search (quiet_rules, Steps.Quiet-server_error))))

  pub handle_registration-Speaks :
      Speaks L port address h.client_name {O = O} (handle_registration L h) Any
  unfolding handle_registration
  handle_registration-Speaks = Speaks-after Any [] tt _ _ (search quiet_rules) λ id.
      Speaks-after Any [] tt _ _ (search Steps.Quiet-info) λ _.
        Speaks-after Any [] tt _ _ (search Steps.Quiet-info) λ _.
          Speaks-then Any [] tt Any (handle_connection_request h id registration) _
            (handle_connection_request-Makes memory port address h id registration (omega arith))
            λ a _.
              Speaks-if (a.0.code == registration_success) _ _ _
                (Speaks-after Any [] tt _ _ (search Steps.Quiet-info) λ _.
                  Speaks-after Any [] tt _ _ (search Steps.Quiet-info)
                    λ _. handle_keys_and_file-Speaks a.1)
                (Speaks-Quiet Any [] tt _ (search (quiet_rules, Steps.Quiet-server_error)))

  pub handle_reconnection-Speaks :
      Speaks L port address h.client_name {O = O} (handle_reconnection L h) Any
  unfolding handle_reconnection
  handle_reconnection-Speaks = Speaks-after Any [] tt _ _ (search quiet_rules) λ id.
      Speaks-after Any [] tt _ _ (search Steps.Quiet-info) λ _.
        Speaks-then Any [] tt Any (handle_connection_request h id reconnect) _
          (handle_connection_request-Makes memory port address h id reconnect (omega arith))
          λ a _. Speaks-if (a.0.code == reconnect_rejected) _ _ _ handle_registration-Speaks (
            Speaks-if (a.0.code == approve_reconnect_send_aes) _ _ _
              (handle_keys_and_file-Speaks a.1)
              (Speaks-Quiet Any [] tt _ (search (quiet_rules, Steps.Quiet-server_error))))
