-- ===== src/Protocol/Defined/Requests.antt =====
-- Requests are set up, sent and answered without an access out of bounds.
use defensive_systems_open_u.Prelude.{ℕ, ◌+◌, ◌≤◌, ◌≡◌, ap, ◌∙◌, arith, length, Bytes}
use defensive_systems_open_u.Buffer.{read_at}
use defensive_systems_open_u.Buffer.Laws.{read_at_fits, take_all}
use defensive_systems_open_u.Protocol.Connection.{Handler, call_send, send_request}
use defensive_systems_open_u.Protocol.Defined.{
  Defined, Defined-pure, Defined-gets, Defined-bind, Defined-in_bounds, Safe, Defined-after,
  safe_rules,
}
use defensive_systems_open_u.Runtime.Exec.{Any, gets, ◌>>=◌}
use defensive_systems_open_u.Protocol.Defined.Steps
use defensive_systems_open_u.Protocol.Message.{Request, header_size, serialise}
use defensive_systems_open_u.Protocol.Message.Layout.{serialise_lem}
use defensive_systems_open_u.Protocol.Payload.{status_payload}
use defensive_systems_open_u.Protocol.Payload.Layout.{status_payload_lem}
use defensive_systems_open_u.Protocol.Upload.{new_request, send_crc_status_request}
use defensive_systems_open_u.Runtime.Os.{Os}
use defensive_systems_open_u.Runtime.World.{M}

-- A request with an id of sixteen bytes and all of its payload.
pub record IsWhole (r : Request) : Type 0 where
  pub id_size : length r.client_id ≡ 16
  pub enough : r.payload_size ≤ length r.payload

module _ {O : Os} (memory : (n : ℕ) (s : O.State) → length (O.garbage n s) ≡ n) where
  Safe-call_send : (fd : ℕ) (b : Bytes) → Safe (call_send {O = O} fd b)
  unfolding call_send
  Safe-call_send fd b = record { safe = record { run = λ w. tt } }

  pub allocated : (n : ℕ) → Defined {O = O} (gets (λ w. O.garbage n w.os)) (λ heap. length heap ≡ n)
  allocated n = Defined-gets _ _ λ w. memory n w.os

  pub send_request-Defined :
      (h : Handler) (r : Request) → IsWhole r → Defined {O = O} (send_request h r) Any
  unfolding send_request
  send_request-Defined h r whole =
      Defined-bind (gets (λ w. O.garbage (header_size + r.payload_size) w.os)) _
        (λ heap. length heap ≡ header_size + r.payload_size) _ (allocated _)
        λ heap room.
          Defined-in_bounds (serialise r heap) _ _
            (serialise_lem r heap whole.id_size whole.enough room)
            (Defined-after _ _ _ (Safe-call_send _ _)
              λ done. (Safe.safe (search (safe_rules, Steps.Safe-error))))

  pub new_request-Defined :
      (id : Bytes) (code size : ℕ) (payload : Bytes)
      → length id ≡ 16
      → size ≤ length payload
      → Defined {O = O} (new_request id code size payload) IsWhole
  unfolding new_request
  new_request-Defined id code size payload h16 enough =
      Defined-in_bounds (read_at 0 16 id) _ _ (read_at_fits 0 16 id (omega arith)) (
        Defined-after _ _ _ (search safe_rules) λ pad. Defined-pure _ _ (record {
          id_size = ap length (take_all id 16 h16) ∙ h16;
          enough = omega (arith, enough);
        }))

  pub request-Defined :
      {A : Type 0} (h : Handler) (id : Bytes) (code size : ℕ) (payload : Bytes)
      (f : Unit {0} → M O A) (R : A → Type 0)
      → length id ≡ 16
      → size ≤ length payload
      → Defined {O = O} (f tt) R
      → Defined {O = O} (new_request id code size payload >>= λ r. send_request h r >>= f) R
  request-Defined h id code size payload f R h16 enough rest =
      Defined-bind (new_request id code size payload) _ IsWhole R
        (new_request-Defined id code size payload h16 enough)
        λ r whole.
          Defined-bind (send_request h r) f Any R (send_request-Defined h r whole) (λ a q. rest)

  pub send_crc_status_request-Defined :
      (h : Handler) (id : Bytes) (code : ℕ)
      → length id ≡ 16
      → Defined {O = O} (send_crc_status_request h id code) Any
  unfolding send_crc_status_request
  send_crc_status_request-Defined h id code h16 =
      Defined-bind (gets (λ w. O.garbage (length h.file_path + 1) w.os)) _
        (λ heap. length heap ≡ length h.file_path + 1) _ (allocated _)
        λ heap room.
          let (payload, built, size) = status_payload_lem h.file_path heap room in
          Defined-in_bounds (status_payload h.file_path heap) _ _ built (
            request-Defined h id code _ payload _ _ h16 (omega (arith, size))
              (Safe.safe (search (safe_rules, Steps.Safe-get_response))))
