-- ===== src/Protocol/Events/Requests.antt =====
-- Every request of the client is sent as a whole message.
use mathlib.Core.Option.{some-injective}
use defensive_systems_open_u.Prelude.{
  ℕ, ◌+◌, ◌^◌, ◌≤◌, ◌<◌, ◌≡◌, refl, sym, ap, ◌∙◌, arith, some, [], ◌∷◌, length, length-take, take,
  Bytes,
}
use defensive_systems_open_u.Buffer.{read_at, write_at}
use defensive_systems_open_u.Buffer.Laws.{>>=-eq-some, length-read_at, read_at-eq-some}
use defensive_systems_open_u.Constants.{protocol_version}
use defensive_systems_open_u.Protocol.Connection.{Handler, call_send, send_request}
use defensive_systems_open_u.Protocol.Events.{IsMessage}
use defensive_systems_open_u.Protocol.Events.Rules.{
  Makes, Makes-pure, Makes-gets, Makes-bind, Makes-in_bounds, Makes-Quiet, Makes-after,
}
use defensive_systems_open_u.Runtime.Exec.{Any, gets, ◌>>=◌}
use defensive_systems_open_u.Protocol.Message.{Request, header, header_size, serialise}
use defensive_systems_open_u.Protocol.Message.Layout.{IsRequest, receive, receive-serialise}
use defensive_systems_open_u.Protocol.Quiet.{IsPlain, quiet_rules}
use defensive_systems_open_u.Protocol.Quiet.Steps
use defensive_systems_open_u.Protocol.Upload.{new_request}
use defensive_systems_open_u.Runtime.Os.{Os}
use defensive_systems_open_u.Runtime.Trace.{Adds-one}
use defensive_systems_open_u.Runtime.World.{M, Event, sent}

-- A request as the client with this id sets it up.
pub record IsFramed (id : Bytes) (r : Request) : Type 0 where
  pub owner : r.client_id ≡ take 16 id
  pub is : IsRequest r
  pub current : r.version ≡ protocol_version
  pub size_fits : r.payload_size < 2 ^ 32

-- A buffer that was built has all of its payload.
serialise-le :
    (r : Request) (heap : Bytes) {b : Bytes}
    → serialise r heap ≡ some b
    → r.payload_size ≤ length r.payload
unfolding serialise
serialise-le r heap e =
    let (x, _, k) = >>=-eq-some (write_at 0 (header r) heap) _ e in
    let (payload, found, _) = >>=-eq-some (read_at 0 r.payload_size r.payload) _ k in
    omega (arith, (read_at-eq-some 0 r.payload_size r.payload found).0)

serialise-IsMessage :
    (id : Bytes) (r : Request) (heap : Bytes) {b : Bytes}
    → IsFramed id r
    → length heap ≡ header_size + r.payload_size
    → serialise r heap ≡ some b
    → IsMessage b × ((receive b).client_id ≡ take 16 id)
serialise-IsMessage id r heap {b} h room built =
    let enough = serialise-le r heap built in
    let (b', built', seen) = receive-serialise r heap h.is h.size_fits enough room in
    let same : receive b ≡ receive b' = ap receive (some-injective _ _ (sym built ∙ built')) in
    let found = same ∙ seen in
    (
      (
        ap (λ r. length r.client_id) found ∙ h.is.id_size,
        ap (λ r. r.version) found ∙ ap (λ (v : ℕ). v ∷ []) h.current,
        ap (λ r. length r.payload) found
            ∙ omega (arith, length-take r.payload_size r.payload, enough)
            ∙ sym (ap (λ r. r.payload_size) found),
      ),
      ap (λ r. r.client_id) found ∙ h.owner,
    )

module _ {O : Os} (P : Event → Type 0) (plain : (e : Event) → IsPlain e → P e) (id : Bytes)
    (message : (b : Bytes) → IsMessage b → (receive b).client_id ≡ take 16 id → P (sent b))
    (memory : (n : ℕ) (s : O.State) → length (O.garbage n s) ≡ n) where
  call_send-Makes :
      (fd : ℕ) (b : Bytes)
      → IsMessage b × ((receive b).client_id ≡ take 16 id)
      → Makes {O = O} P (call_send fd b) Any
  unfolding call_send
  call_send-Makes fd b h = record { run = λ w. (Adds-one w.trace (sent b) (message b h.0 h.1), tt) }

  pub send_request-Makes :
      (h : Handler) (r : Request) → IsFramed id r → Makes {O = O} P (send_request h r) Any
  unfolding send_request
  send_request-Makes h r framed =
      Makes-bind P (gets (λ w. O.garbage (header_size + r.payload_size) w.os)) _
        (λ heap. length heap ≡ header_size + r.payload_size) _ (Makes-gets P _ _ λ w. memory _ w.os)
        λ heap room. Makes-in_bounds P (serialise r heap) _ _ λ b built.
          Makes-bind P (call_send h.socket b) _ Any _
            (call_send-Makes h.socket b (serialise-IsMessage id r heap framed room built))
            λ done _. Makes-Quiet P plain _ (search (quiet_rules, Steps.Quiet-error))

  pub new_request-Makes :
      (code size : ℕ) (payload : Bytes)
      → code < 2 ^ 16
      → Makes {O = O} P (new_request id code size payload) (IsFramed id)
  unfolding new_request
  new_request-Makes code size payload fits = Makes-in_bounds P (read_at 0 16 id) _ _ λ bytes found.
      Makes-after P plain _ _ _ (search quiet_rules) λ pad. Makes-pure P _ _ (record {
        owner = (read_at-eq-some 0 16 id found).1;
        is = record { id_size = length-read_at 0 16 id found; code_fits = fits };
        current = refl;
        size_fits = omega arith;
      })

  -- Setting up a request and sending it, in front of the rest.
  pub request-Makes :
      {A : Type 0} (h : Handler) (code size : ℕ) (payload : Bytes) (f : Unit {0} → M O A)
      (R : A → Type 0)
      → code < 2 ^ 16
      → Makes {O = O} P (f tt) R
      → Makes {O = O} P (new_request id code size payload >>= λ r. send_request h r >>= f) R
  request-Makes h code size payload f R fits rest =
      Makes-bind P (new_request id code size payload) _ (IsFramed id) R
        (new_request-Makes code size payload fits)
        λ r framed.
          Makes-bind P (send_request h r) f Any R (send_request-Makes h r framed) (λ a q. rest)
