-- ===== src/Protocol/Success/Exchange.antt =====
-- ProtocolHandler.cpp, `sendRequest` and `getResponse` where a reply comes.
use defensive_systems_open_u.Prelude.{
  ℕ, ◌+◌, ◌%◌, ◌^◌, ◌≤◌, ◌<◌, ◌≡◌, ap, arith, Bool, true, List, [], ◌∷◌, ◌++◌, length, take, Bytes,
}
use defensive_systems_open_u.Buffer.Laws.{read_at_fits, take_all}
use defensive_systems_open_u.Constants.{protocol_version}
use defensive_systems_open_u.Protocol.Connection.{Handler, send_request, get_response, call_send}
use defensive_systems_open_u.Protocol.Connection.Reply.{get_response-reply}
use defensive_systems_open_u.Protocol.Message.{Request, Response, serialise, header_size}
use defensive_systems_open_u.Protocol.Message.Layout.{
  IsRequest, Received, receive, receive-serialise,
}
use defensive_systems_open_u.Protocol.Success.Rules.{
  Runs, Runs-bind, Runs-pure, Runs-gets, Runs-in_bounds, Runs-step,
}
use defensive_systems_open_u.Protocol.Success.Server.{Exchange, Replied}
use defensive_systems_open_u.Protocol.Upload.{new_request}
use defensive_systems_open_u.Runtime.Os.{Os}
use defensive_systems_open_u.Runtime.Exec.{ok, ◌>>=◌}
use defensive_systems_open_u.Runtime.World.{M, Event, sent}

-- The request as its receiver finds it.
abbrev pub as_received : Request → Received
as_received r = record {
  client_id = r.client_id;
  version = r.version ∷ [];
  code = r.code;
  payload_size = r.payload_size;
  payload = take r.payload_size r.payload;
}

module _ {O : Os} (h : Handler) where
  -- A request that the server replies to is sent, and the reply is on its way.
  pub send_request-Runs :
      (r : Request) (s : O.State) (Q : ℕ → Bytes → O.State → Type 0)
      → ((n : ℕ) (s : O.State) → length (O.garbage n s) ≡ n)
      → IsRequest r
      → r.payload_size < 2 ^ 32
      → r.payload_size ≤ length r.payload
      → ((b : Bytes) → receive b ≡ as_received r → Exchange O h.socket s b Q)
      → Runs {O = O} (send_request h r) s (λ a s'. Replied O h.socket s' Q)
  unfolding send_request call_send
  send_request-Runs r s Q memory is fits enough exchange =
      let (b, built, seen) =
        receive-serialise r (O.garbage (header_size + r.payload_size) s) is fits enough
          (memory (header_size + r.payload_size) s) in
      let e = exchange b seen in
      Runs-gets (λ (v : O.State). O.garbage (header_size + r.payload_size) v) _ s _
        (Runs-in_bounds (serialise r _) _ s _ built (
          Runs-step (call_send h.socket b) _ s _ true (O.send h.socket b s).1
            (send_lem b e.accepted) (Runs-gets O.error_message _ _ _ (Runs-pure tt _ _ e.reply))))
    where
      send_lem :
          (b : Bytes)
          → (O.send h.socket b s).0 ≡ true
          → (t : List Event)
          → (t' : List Event) × (call_send {O = O} h.socket b (record { os = s; trace = t })
              ≡ (ok true, record { os = (O.send h.socket b s).1; trace = t' }))
      send_lem b e t = (
        t ++ (sent b ∷ []),
        ap
            (λ (done : Bool).
              (ok done, record { os = (O.send h.socket b s).1; trace = t ++ (sent b ∷ []) }))
            e,
      )

  -- The reply is read and understood.
  pub get_response-Runs :
      (s : O.State) (Q : ℕ → Bytes → O.State → Type 0)
      → Replied O h.socket s Q
      → Runs {O = O} (get_response h) s (λ r s'. Q r.code r.payload s')
  get_response-Runs s Q e = record {
    run = λ t. (
      _,
      e.after,
      t,
      get_response-reply h (record { os = s; trace = t }) e.version e.code e.payload e.between
          e.after e.code_fits e.size_fits e.header e.body,
      e.good,
    );
  }

-- The request that `new_request` sets up.
abbrev pub made : ℕ → Bytes → ℕ → ℕ → Bytes → Request
made pad id code size payload = record {
  client_id = id;
  version = protocol_version;
  padding = pad;
  code = code;
  payload_size = size % 2 ^ 32;
  payload = payload;
}

module _ {O : Os} where
  pub Runs-new_request :
      {A : Type 0} (id : Bytes) (code size : ℕ) (payload : Bytes) (f : Request → M O A)
      (s : O.State) (R : A → O.State → Type 0)
      → length id ≡ 16
      → Runs {O = O} (f (made (O.padding s) id code size payload)) s R
      → Runs {O = O} (new_request id code size payload >>= f) s R
  unfolding new_request ◌>>=◌
  Runs-new_request id code size payload f s R h k = record {
    run = λ t. rw (read_at_fits 0 16 id (omega arith), take_all id 16 h) (k.run t);
  }

  -- A request that is set up, sent and replied to, in front of the rest.
  pub Runs-exchange :
      {A : Type 0} (h : Handler) (id : Bytes) (code size : ℕ) (payload : Bytes)
      (f : Response → M O A) (s : O.State) (Q : ℕ → Bytes → O.State → Type 0)
      (R : A → O.State → Type 0)
      → ((n : ℕ) (s : O.State) → length (O.garbage n s) ≡ n)
      → length id ≡ 16
      → code < 2 ^ 16
      → size % 2 ^ 32 ≤ length payload
      → ((b : Bytes)
          → receive b ≡ as_received (made (O.padding s) id code size payload)
          → Exchange O h.socket s b Q)
      → ((r : Response) (s' : O.State) → Q r.code r.payload s' → Runs {O = O} (f r) s' R)
      → Runs {O = O}
          (new_request id code size payload >>= λ r. send_request h r >>= λ _. get_response h >>= f)
          s
          R
  Runs-exchange h id code size payload f s Q R memory h16 hc enough exchange k =
      Runs-new_request id code size payload _ s R h16 (
        Runs-bind (send_request h r) _ s _ R
          (send_request-Runs h r s Q memory (record { id_size = h16; code_fits = hc }) (omega arith)
            enough exchange)
          λ a s1 replied. Runs-bind (get_response h) f s1 _ R (get_response-Runs h s1 Q replied) k)
    where
      r : Request
      r = made (O.padding s) id code size payload
