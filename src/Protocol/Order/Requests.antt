-- ===== src/Protocol/Order/Requests.antt =====
-- Setting up and sending one request: it moves the phase by its code.
use defensive_systems_open_u.Prelude.{ℕ, ◌^◌, ◌<◌, ◌≡◌, refl, ap, ◌∙◌, Option, none, some, Bytes}
use defensive_systems_open_u.Buffer.{read_at}
use defensive_systems_open_u.Buffer.Laws.{length-read_at}
use defensive_systems_open_u.Protocol.Connection.{Handler, call_send, send_request}
use defensive_systems_open_u.Protocol.Message.{Request, serialise}
use defensive_systems_open_u.Protocol.Message.Layout.{IsRequest, serialise-header, header_code}
use defensive_systems_open_u.Protocol.Order.{Phase, closed, step, request_code}
use defensive_systems_open_u.Protocol.Order.Rules.{
  From, phase_after-snoc, From-pure, From-bind, From-quiet, Quiet-From,
}
use defensive_systems_open_u.Protocol.Quiet.{quiet_rules}
use defensive_systems_open_u.Protocol.Quiet.Steps
use defensive_systems_open_u.Protocol.Upload.{new_request, send_crc_status_request}
use defensive_systems_open_u.Runtime.Os.{Os}
use defensive_systems_open_u.Runtime.Exec.{in_bounds, ◌>>=◌}
use defensive_systems_open_u.Runtime.World.{M, sent}

request_code-serialise :
    (r : Request) (heap : Bytes) {b : Bytes}
    → IsRequest r
    → serialise r heap ≡ some b
    → request_code b ≡ r.code
unfolding request_code
request_code-serialise r heap h e =
    let (rest, whole) = serialise-header r heap h.id_size e in
    ap request_code whole ∙ header_code r rest h

module _ {O : Os} where
  pub From-in_bounds :
      {A B : Type 0} (p : Phase) (o : Option A) (f : A → M O B) (R : B → Phase → Type 0)
      → ((a : A) → o ≡ some a → From p (f a) R)
      → From p (in_bounds o >>= f) R
  unfolding ◌>>=◌
  From-in_bounds p none f R h = record { run = λ w a. (p, a, tt) }
  From-in_bounds p (some a) f R h = h a refl

  From-call_send :
      (p q : Phase) (fd : ℕ) (b : Bytes)
      → step p (request_code b) ≡ some q
      → From {O = O} p (call_send fd b) (λ a s. s ≡ q)
  unfolding call_send
  From-call_send p q fd b e = record {
    run = λ w h.
        (q, record { reached = phase_after-snoc (some closed) w.trace (sent b) h.reached e }, refl);
  }

  send_request-From :
      (p q : Phase) (h : Handler) (r : Request)
      → IsRequest r
      → step p r.code ≡ some q
      → From {O = O} p (send_request h r) (λ a s. s ≡ q)
  unfolding send_request
  send_request-From p q h r is e = From-quiet p _ _ _ (search quiet_rules) λ heap.
      From-in_bounds p (serialise r heap) _ _ λ b built.
        From-bind p (call_send h.socket b) _ (λ a s. s ≡ q) _
          (From-call_send p q h.socket b (ap (step p) (request_code-serialise r heap is built) ∙ e))
          λ done s moved. rw moved (Quiet-From q _ (search (quiet_rules, Steps.Quiet-error)))

  -- A request that is in order moves the phase on.
  pub From-send_request :
      {A : Type 0} (p q : Phase) (h : Handler) (r : Request) (f : Unit {0} → M O A)
      (R : A → Phase → Type 0)
      → IsRequest r
      → step p r.code ≡ some q
      → From q (f tt) R
      → From p (send_request h r >>= f) R
  From-send_request p q h r f R is e rest =
      From-bind p (send_request h r) f (λ a s. s ≡ q) R (send_request-From p q h r is e)
        λ a s moved. rw moved rest

  pub new_request-From :
      (p : Phase) (id : Bytes) (code size : ℕ) (payload : Bytes)
      → code < 2 ^ 16
      → From {O = O} p
          (new_request id code size payload)
          (λ r q. IsRequest r × (r.code ≡ code) × (q ≡ p))
  unfolding new_request
  new_request-From p id code size payload fits =
      From-in_bounds p (read_at 0 16 id) _ _ λ bytes found.
        From-quiet p _ _ _ (search quiet_rules) λ pad.
          From-pure p _ _
            (record { id_size = length-read_at 0 16 id found; code_fits = fits }, refl, refl)

  -- Setting up a request with this code and sending it, in front of the rest.
  pub From-request :
      {A : Type 0} (p q : Phase) (h : Handler) (id : Bytes) (code size : ℕ) (payload : Bytes)
      (f : Unit {0} → M O A) (R : A → Phase → Type 0)
      → code < 2 ^ 16
      → step p code ≡ some q
      → From q (f tt) R
      → From p (new_request id code size payload >>= λ r. send_request h r >>= f) R
  From-request p q h id code size payload f R fits e rest =
      From-bind p (new_request id code size payload) _ _ R
        (new_request-From p id code size payload fits)
        λ r s (is, coded, stays).
          rw stays (From-send_request p q h r f R is (ap (step p) coded ∙ e) rest)

  -- A status request ends in the phase that its code leads to.
  pub send_crc_status_request-From :
      (p q : Phase) (h : Handler) (id : Bytes) (code : ℕ)
      → code < 2 ^ 16
      → step p code ≡ some q
      → From {O = O} p (send_crc_status_request h id code) (λ a s. s ≡ q)
  unfolding send_crc_status_request
  send_crc_status_request-From p q h id code fits e =
      From-quiet p _ _ _ (search quiet_rules) λ heap.
        From-quiet p _ _ _ (search quiet_rules) λ payload.
          From-request p q h id code _ payload _ _ fits e
            (Quiet-From q _ (search (quiet_rules, Steps.Quiet-get_response)))
