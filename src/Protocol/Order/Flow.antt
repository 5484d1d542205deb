-- ===== src/Protocol/Order/Flow.antt =====
-- The order of requests in the registration and the reconnection flows.
use defensive_systems_open_u.Prelude.{
  ℕ, ◌^◌, ◌<◌, ◌≡◌, refl, ap, ◌∙◌, Bool, true, false, some, Bytes, replicate, arith, ◌==◌,
}
use defensive_systems_open_u.Constants.{
  registration, send_public_key, reconnect, name_field_size, registration_success,
  received_public_key_send_aes, approve_reconnect_send_aes, reconnect_rejected,
}
use defensive_systems_open_u.Protocol.Connection.{Handler}
use defensive_systems_open_u.Protocol.Events.Saves.{save_private_rsa_key-Makes, save_me_info-Makes}
use defensive_systems_open_u.Protocol.Flow.{
  handle_connection_request, handle_rsa_registration, handle_keys_and_file, handle_registration,
  handle_reconnection,
}
use defensive_systems_open_u.Protocol.Order.{
  Phase, idle, registering, reconnecting, keyed, confirmed, step,
}
use defensive_systems_open_u.Protocol.Order.Requests.{
  From-request, From-send_request, new_request-From,
}
use defensive_systems_open_u.Protocol.Order.Rules.{
  From, From-pure, From-bind, From-quiet, From-if, From-weaken, From-silent, IsSilent,
  plain-IsSilent, Quiet-From,
}
use defensive_systems_open_u.Protocol.Quiet.{quiet_rules}
use defensive_systems_open_u.Protocol.Quiet.Steps
use defensive_systems_open_u.Protocol.Order.Upload.{Ended, handle_file_encryption_and_send-From}
use defensive_systems_open_u.Protocol.Upload.{new_request}
use defensive_systems_open_u.Runtime.Library.{Library}
use defensive_systems_open_u.Runtime.Os.{Os}

-- A flow ends with `true` only in the phase `confirmed`.
abbrev pub Succeeded : Bool → Phase → Type 0
Succeeded true q = q ≡ confirmed
Succeeded false q = Unit {0}

Ended-Succeeded : (status : Bool) (q : Phase) → Ended status q → Succeeded status q
Ended-Succeeded true q e = e
Ended-Succeeded false q e = tt

module _ {O : Os} where
  handle_connection_request-From :
      (p q : Phase) (h : Handler) (id : Bytes) (code : ℕ)
      → code < 2 ^ 16
      → step p code ≡ some q
      → From {O = O} p (handle_connection_request h id code) (λ a s. s ≡ q)
  unfolding handle_connection_request
  handle_connection_request-From p q h id code fits e =
      From-quiet p _ _ _ (search quiet_rules) λ payload.
        From-request p q h (replicate 16 0) code name_field_size payload _ _ fits e
          (Quiet-From q _ (search (quiet_rules, Steps.Quiet-get_response)))

module _ {O : Os} (L : Library) where
  handle_rsa_registration-From :
      (p : Phase) (h : Handler) (id : Bytes)
      → step p send_public_key ≡ some keyed
      → From {O = O} p (handle_rsa_registration L h id) (λ a s. s ≡ keyed)
  unfolding handle_rsa_registration
  handle_rsa_registration-From p h id e =
      From-quiet p _ _ _ (search Steps.Quiet-generate_rsa_key_pair) λ keys.
        From-quiet p _ _ _ (search quiet_rules) λ heap.
          From-quiet p _ _ _ (search quiet_rules) λ payload.
            From-bind p (new_request id send_public_key _ payload) _ _ _
              (new_request-From p id send_public_key _ payload (omega arith))
              λ r q (is, coded, stays). rw stays (
                From-silent p _ _ _ (save_private_rsa_key-Makes IsSilent plain-IsSilent keys.1 tt)
                  λ _.
                    From-silent p _ _ _
                      (save_me_info-Makes IsSilent plain-IsSilent L h.client_name r.client_id keys.1
                        tt)
                      λ _.
                        From-send_request p keyed h r _ _ is (ap (step p) coded ∙ e)
                          (Quiet-From keyed _ (search (quiet_rules, Steps.Quiet-get_response))))

  handle_keys_and_file-From :
      (p : Phase) (h : Handler) (id : Bytes)
      → step p send_public_key ≡ some keyed
      → From {O = O} p (handle_keys_and_file L h id) Succeeded
  unfolding handle_keys_and_file
  handle_keys_and_file-From p h id e =
      From-bind p (handle_rsa_registration L h id) _ _ _ (handle_rsa_registration-From p h id e)
        λ a q moved. rw moved (
          From-if keyed (a.0.code == received_public_key_send_aes) _ _ _
            (From-quiet keyed _ _ _ (search Steps.Quiet-info) λ _.
              From-quiet keyed _ _ _ (search Steps.Quiet-info) λ _.
                From-quiet keyed _ _ _ (search Steps.Quiet-substr16) λ encrypted.
                  From-weaken keyed _ _ _
                    (handle_file_encryption_and_send-From L h encrypted a.1 id) Ended-Succeeded)
            (From-quiet keyed _ _ _ (search Steps.Quiet-server_error)
              λ _. From-pure keyed false _ tt))

  -- From any phase in which a registration may be asked for.
  pub handle_registration-From :
      (p : Phase) (h : Handler)
      → step p registration ≡ some registering
      → From {O = O} p (handle_registration L h) Succeeded
  unfolding handle_registration
  handle_registration-From p h e = From-quiet p _ _ _ (search quiet_rules) λ memory.
      From-quiet p _ _ _ (search Steps.Quiet-info) λ _.
        From-quiet p _ _ _ (search Steps.Quiet-info) λ _.
          From-bind p (handle_connection_request h memory registration) _ _ _
            (handle_connection_request-From p registering h memory registration (omega arith) e)
            λ a q moved. rw moved (
              From-if registering (a.0.code == registration_success) _ _ _
                (From-quiet registering _ _ _ (search Steps.Quiet-info) λ _.
                  From-quiet registering _ _ _ (search Steps.Quiet-info)
                    λ _. handle_keys_and_file-From registering h a.1 refl)
                (From-quiet registering _ _ _ (search Steps.Quiet-server_error)
                  λ _. From-pure registering false _ tt))

  pub handle_reconnection-From :
      (h : Handler) → From {O = O} idle (handle_reconnection L h) Succeeded
  unfolding handle_reconnection
  handle_reconnection-From h = From-quiet idle _ _ _ (search quiet_rules) λ memory.
      From-quiet idle _ _ _ (search Steps.Quiet-info) λ _.
        From-bind idle (handle_connection_request h memory reconnect) _ _ _
          (handle_connection_request-From idle reconnecting h memory reconnect (omega arith) refl)
          λ a q moved. rw moved (
            From-if reconnecting (a.0.code == reconnect_rejected) _ _ _
              (handle_registration-From reconnecting h refl)
              (From-if reconnecting (a.0.code == approve_reconnect_send_aes) _ _ _
                (handle_keys_and_file-From reconnecting h a.1 refl)
                (From-quiet reconnecting _ _ _ (search Steps.Quiet-server_error)
                  λ _. From-pure reconnecting false _ tt)))
