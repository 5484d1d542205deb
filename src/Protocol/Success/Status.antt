-- ===== src/Protocol/Success/Status.antt =====
-- ProtocolHandler.cpp, `sendCRCStatusRequest` where a reply comes.
use defensive_systems_open_u.Prelude.{ℕ, ◌+◌, ◌^◌, ◌<◌, ◌≡◌, ap, arith, Bool, length, Bytes, ◌==◌}
use defensive_systems_open_u.Constants.{confirm_msg}
use defensive_systems_open_u.Protocol.Connection.{Handler}
use defensive_systems_open_u.Protocol.Message.Layout.{receive}
use defensive_systems_open_u.Protocol.Payload.{status_payload}
use defensive_systems_open_u.Protocol.Payload.Layout.{status_payload_lem}
use defensive_systems_open_u.Protocol.Success.Exchange.{Runs-exchange}
use defensive_systems_open_u.Protocol.Success.Rules.{Runs, Runs-pure, Runs-gets, Runs-in_bounds}
use defensive_systems_open_u.Protocol.Success.Server.{Exchange}
use defensive_systems_open_u.Protocol.Upload.{send_crc_status_request}
use defensive_systems_open_u.Runtime.Os.{Os}

module _ {O : Os} (h : Handler) (memory : (n : ℕ) (s : O.State) → length (O.garbage n s) ≡ n) where
  -- The result is whether the reply's code is that of a confirmation.
  pub send_crc_status_request-Runs :
      (id : Bytes) (code : ℕ) (s : O.State) (Q : ℕ → Bytes → O.State → Type 0)
      (R : Bool → O.State → Type 0)
      → length id ≡ 16
      → code < 2 ^ 16
      → ((b : Bytes)
          → (receive b).code ≡ code
          → (receive b).client_id ≡ id
          → Exchange O h.socket s b Q)
      → ((answer : ℕ) (payload : Bytes) (s' : O.State)
          → Q answer payload s'
          → R (answer == confirm_msg) s')
      → Runs {O = O} (send_crc_status_request h id code) s R
  unfolding send_crc_status_request
  send_crc_status_request-Runs id code s Q R h16 fits exchange k =
      let (payload, built, size) =
        status_payload_lem h.file_path (O.garbage (length h.file_path + 1) s)
          (memory (length h.file_path + 1) s) in
      Runs-gets (λ (v : O.State). O.garbage (length h.file_path + 1) v) _ s _
        (Runs-in_bounds (status_payload h.file_path _) _ s _ built (
          Runs-exchange h id code (length h.file_path + 1) payload _ s Q _ memory h16 fits
            (omega (arith, size)) (λ b e. exchange b (ap (λ r. r.code) e) (ap (λ r. r.client_id) e))
            λ r s' (good : Q r.code r.payload s'). Runs-pure _ s' _ (k r.code r.payload s' good)))
