-- ===== src/Protocol/Success/Registration.antt =====
-- ProtocolHandler.cpp, `handleRegistration` against a server that serves.
use mathlib.Core.List.{append-nil}
use defensive_systems_open_u.Prelude.{
  ℕ, ◌^◌, ◌≤◌, ◌<◌, ◌≡◌, refl, ap, ◌∙◌, arith, min, true, [], ◌∷◌, ◌++◌, length, length-append,
  take, drop, replicate, Bytes, IsBytes, ==_iff, ltb, false,
}
use defensive_systems_open_u.Buffer.{padded, write_at}
use defensive_systems_open_u.Buffer.Laws.{take_all, length-padded, drop_all}
use defensive_systems_open_u.Constants.{
  registration, registration_success, reconnect, received_public_key_send_aes, name_field_size,
}
use defensive_systems_open_u.Protocol.Connection.{Handler}
use defensive_systems_open_u.Protocol.Flow.{
  handle_connection_request, substr16, handle_rsa_registration, handle_keys_and_file,
  handle_registration, handle_reconnection,
}
use defensive_systems_open_u.Protocol.Flow.Identity.{write_at-id}
use defensive_systems_open_u.Protocol.Message.{Response}
use defensive_systems_open_u.Protocol.Message.Layout.{receive}
use defensive_systems_open_u.Protocol.Payload.{name_field}
use defensive_systems_open_u.Protocol.Payload.Layout.{name_field_lem}
use defensive_systems_open_u.Protocol.Success.Exchange.{Runs-exchange}
use defensive_systems_open_u.Protocol.Success.Delivery.{handle_file_encryption_and_send-Runs}
use defensive_systems_open_u.Protocol.Success.KeyExchange.{Keyed, handle_rsa_registration-Runs}
use defensive_systems_open_u.Protocol.Success.Rules.{
  Runs, Runs-pure, Runs-bind, Runs-step, Runs-gets, Runs-in_bounds, Runs-says, Says-info,
}
use defensive_systems_open_u.Protocol.Success.Server.{
  fresh, known, registered, done, Exchange, IsServer,
}
use defensive_systems_open_u.Runtime.Library
use defensive_systems_open_u.Runtime.Library.{Library}
use defensive_systems_open_u.Runtime.Os.{Os}
use defensive_systems_open_u.Runtime.Exec.{ok}
use defensive_systems_open_u.Runtime.World.{World}

module _ {O : Os} {L : Library} (lawful : Library.IsLawful L) (h : Handler) (contents : Bytes)
    (server : IsServer O L h.socket h.client_name h.file_path contents) (bytes : IsBytes contents)
    (small : length contents < 2 ^ 30) where
  open server use {In}

  -- The reply, and what is kept as the id.
  abbrev Answered : (ℕ → Bytes → O.State → Type 0) → Response × Bytes → O.State → Type 0
  Answered Q (r, id) s = Q r.code r.payload s × (16 ≤ length r.payload → id ≡ take 16 r.payload)

  handle_connection_request-Runs :
      (code : ℕ) (memory : Bytes) (s : O.State) (Q : ℕ → Bytes → O.State → Type 0)
      → length memory ≡ 16
      → code < 2 ^ 16
      → ((b : Bytes)
          → (receive b).code ≡ code
          → (receive b).payload ≡ padded 254 h.client_name ++ (0 ∷ [])
          → Exchange O h.socket s b Q)
      → Runs {O = O} (handle_connection_request h memory code) s (Answered Q)
  unfolding handle_connection_request
  handle_connection_request-Runs code memory s Q h16 fits exchange =
      Runs-in_bounds (name_field h.client_name) _ s _ (name_field_lem h.client_name) (
        Runs-exchange h (replicate 16 0) code name_field_size payload _ s Q _ server.length-garbage
          refl fits (omega (arith, size))
          (λ b e.
            exchange b (ap (λ r. r.code) e) (ap (λ r. r.payload) e ∙ take_all payload 255 size))
          λ r s' (good : Q r.code r.payload s').
            Runs-in_bounds (write_at 0 (take (min 16 (length r.payload)) r.payload) memory) _ s' _
              (write_at-id r.payload memory h16)
              (Runs-pure (r, stored r.payload) s' (Answered Q) (good, whole r.payload)))
    where
      payload : Bytes
      payload = padded 254 h.client_name ++ (0 ∷ [])

      size : length payload ≡ 255
      size = omega (
        arith,
        length-append (padded 254 h.client_name) (0 ∷ []),
        length-padded 254 h.client_name,
      )

      stored : Bytes → Bytes
      stored body = take 16 body ++ drop (length body) memory

      whole : (body : Bytes) → 16 ≤ length body → stored body ≡ take 16 body
      whole body e =
          ap (λ (t : Bytes). take 16 body ++ t) (drop_all memory (length body) (omega arith))
          ∙ append-nil (take 16 body)

  substr16_lem :
      (payload : Bytes)
      → 16 ≤ length payload
      → (w : World O) → substr16 payload w ≡ (ok (drop 16 payload), w)
  unfolding substr16
  substr16_lem payload long w = rw (tested) refl
    where
      tested : ltb (length payload) 16 ≡ false
      tested = ground arith

  handle_keys_and_file-Runs :
      (id : Bytes) (s : O.State)
      → length id ≡ 16
      → In (registered id) s
      → Runs {O = O} (handle_keys_and_file L h id) s (λ a s'. (a ≡ true) × In done s')
  unfolding handle_keys_and_file substr16 Keyed
  handle_keys_and_file-Runs id s h16 at =
      Runs-bind (handle_rsa_registration L h id) _ s (Keyed lawful h contents server bytes small id)
        _ (handle_rsa_registration-Runs lawful h contents server bytes small id s h16 at)
        λ p s1 (good : Keyed lawful h contents server bytes small id p s1).
          let (code, (key, aes, seed, saved, a16, long, e, at1)) = good in
          rw ((==_iff p.0.code received_public_key_send_aes).1 code) (
            Runs-says _ _ s1 _ (search Says-info) (
              Runs-says _ _ s1 _ (search Says-info) (
                Runs-step (substr16 p.0.payload) _ s1 _ (drop 16 p.0.payload) s1
                  (λ t. (t, substr16_lem p.0.payload long _))
                  (rw saved (
                    handle_file_encryption_and_send-Runs lawful h contents server bytes small id aes
                      h16 a16 key seed (drop 16 p.0.payload) s1 e at1)))))

  -- A client that the server does not know yet is registered, and its file is accepted.
  pub handle_registration-Runs :
      (s : O.State)
      → In fresh s
      → Runs {O = O} (handle_registration L h) s (λ a s'. (a ≡ true) × In done s')
  unfolding handle_registration
  handle_registration-Runs s at = Runs-gets (O.garbage 16) _ s _ (
      Runs-says _ _ s _ (search Says-info) (
        Runs-says _ _ s _ (search Says-info) (
          Runs-bind (handle_connection_request h (O.garbage 16 s) registration) _ s
            (Answered Registered) _
            (handle_connection_request-Runs registration _ s Registered (server.length-garbage 16 s)
              (omega arith) λ b code payload. server.registers s b at code payload)
            λ p s1 (good : Answered Registered p s1).
              let (code, size, at1) = good.0 in
              let kept = good.1 (omega arith) ∙ take_all p.0.payload 16 size in
              rw ((==_iff p.0.code registration_success).1 code) (
                Runs-says _ _ s1 _ (search Says-info) (
                  Runs-says _ _ s1 _ (search Says-info)
                    (rw kept (handle_keys_and_file-Runs p.0.payload s1 size at1)))))))
    where
      Registered : ℕ → Bytes → O.State → Type 0
      Registered code payload s' =
          (code ≡ 2100) × (length payload ≡ 16) × In (registered payload) s'

  -- A client that the server knows goes on with its id, and its file is accepted.
  pub handle_reconnection-Runs :
      (id : Bytes) (s : O.State)
      → In (known id) s
      → Runs {O = O} (handle_reconnection L h) s (λ a s'. (a ≡ true) × In done s')
  unfolding handle_reconnection
  handle_reconnection-Runs id s at = Runs-gets (O.garbage 16) _ s _ (
      Runs-says _ _ s _ (search Says-info) (
        Runs-bind (handle_connection_request h (O.garbage 16 s) reconnect) _ s (Answered Confirmed)
          _
          (handle_connection_request-Runs reconnect _ s Confirmed (server.length-garbage 16 s)
            (omega arith) λ b code payload. server.reconnects s b id at code payload)
          λ p s1 (good : Answered Confirmed p s1).
            let (code, size, long, same, at1) = good.0 in
            rw (code) (rw (good.1 long ∙ same) (handle_keys_and_file-Runs id s1 size at1))))
    where
      Confirmed : ℕ → Bytes → O.State → Type 0
      Confirmed code payload s' =
          (code ≡ 2105)
          × (length id ≡ 16)
          × (16 ≤ length payload)
          × (take 16 payload ≡ id)
          × In (registered id) s'

  -- A client that the server turns away is registered, and its file is accepted.
  pub handle_reconnection-rejects :
      (s : O.State)
      → In fresh s
      → Runs {O = O} (handle_reconnection L h) s (λ a s'. (a ≡ true) × In done s')
  unfolding handle_reconnection
  handle_reconnection-rejects s at = Runs-gets (O.garbage 16) _ s _ (
      Runs-says _ _ s _ (search Says-info) (
        Runs-bind (handle_connection_request h (O.garbage 16 s) reconnect) _ s (Answered Rejected) _
          (handle_connection_request-Runs reconnect _ s Rejected (server.length-garbage 16 s)
            (omega arith) λ b code payload. server.rejects s b at code payload)
          λ p s1 (good : Answered Rejected p s1).
            rw (good.0.0) (handle_registration-Runs s1 good.0.1)))
    where
      Rejected : ℕ → Bytes → O.State → Type 0
      Rejected code payload s' = (code ≡ 2106) × In fresh s'
