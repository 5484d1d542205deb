-- ===== src/Protocol/Events/Upload.antt =====
-- What the upload shows to the outside, in ProtocolHandler.cpp.
use defensive_systems_open_u.Prelude.{
  ℕ, zero, suc, ◌^◌, ◌<◌, ◌≡◌, arith, Bool, Option, none, some, length, take, Bytes, ◌==◌,
}
use defensive_systems_open_u.Constants.{
  send_file, crc_correct, crc_incorrect_resend, crc_incorrect_done, file_received_crc_ok,
}
use defensive_systems_open_u.Protocol.Connection.{Handler}
use defensive_systems_open_u.Protocol.Events.{IsMessage}
use defensive_systems_open_u.Protocol.Events.Requests.{
  IsFramed, send_request-Makes, new_request-Makes, request-Makes,
}
use defensive_systems_open_u.Protocol.Events.Rules.{
  Makes, Makes-pure, Makes-bind, Makes-if, Makes-Quiet, Makes-after, Makes-then,
}
use defensive_systems_open_u.Runtime.Exec.{Any}
use defensive_systems_open_u.Protocol.Message.{Request, Response}
use defensive_systems_open_u.Protocol.Message.Layout.{receive}
use defensive_systems_open_u.Protocol.Quiet.{IsPlain, quiet_rules}
use defensive_systems_open_u.Protocol.Quiet.Steps
use defensive_systems_open_u.Protocol.Quiet.Steps.{quiet_steps}
use defensive_systems_open_u.Protocol.Upload.{
  new_request, send_crc_status_request, accept_upload, refuse_upload, compare_crc, attempt,
  break_or, retry_loop, after_loop, handle_retry_send_file, handle_file_encryption_and_send,
}
use defensive_systems_open_u.Runtime.Library.{Library}
use defensive_systems_open_u.Runtime.Os.{Os}
use defensive_systems_open_u.Runtime.World.{M, Event, sent}

module _ {O : Os} (P : Event → Type 0) (plain : (e : Event) → IsPlain e → P e) (id : Bytes)
    (message : (b : Bytes) → IsMessage b → (receive b).client_id ≡ take 16 id → P (sent b))
    (memory : (n : ℕ) (s : O.State) → length (O.garbage n s) ≡ n) where
  send_crc_status_request-Makes :
      (h : Handler) (code : ℕ)
      → code < 2 ^ 16
      → Makes {O = O} P (send_crc_status_request h id code) Any
  unfolding send_crc_status_request
  send_crc_status_request-Makes h code fits = Makes-after P plain _ _ _ (search quiet_rules) λ heap.
      Makes-after P plain _ _ _ (search quiet_rules) λ payload.
        request-Makes P plain id message memory h code _ payload _ _ fits
          (Makes-Quiet P plain _ (search (quiet_rules, Steps.Quiet-get_response)))

  accept_upload-Makes : (h : Handler) → Makes {O = O} P (accept_upload h id) Any
  unfolding accept_upload
  accept_upload-Makes h =
      search
        (
          send_crc_status_request-Makes h crc_correct (omega arith),
          Makes-Quiet P plain,
          Makes-then P,
          Makes-after P plain,
          quiet_steps,
        )
        depth 14

  refuse_upload-Makes : (h : Handler) → Makes {O = O} P (refuse_upload h id) Any
  unfolding refuse_upload
  refuse_upload-Makes h =
      search
        (
          send_crc_status_request-Makes h crc_incorrect_resend (omega arith),
          Makes-pure P,
          Makes-then P,
          Makes-after P plain,
          quiet_steps,
        )
        depth 14

  compare_crc-Makes : (h : Handler) (r : Response) → Makes {O = O} P (compare_crc h id r) Any
  unfolding compare_crc
  compare_crc-Makes h r =
      search
        (
          Makes-if P,
          Makes-then P,
          Makes-Quiet P plain,
          Makes-after P plain,
          quiet_steps,
          accept_upload-Makes,
          refuse_upload-Makes,
        )
        depth 14

  attempt-Makes : (h : Handler) (r : Request) → IsFramed id r → Makes {O = O} P (attempt h r id) Any
  unfolding attempt
  attempt-Makes h r framed =
      Makes-then P _ _ _ (send_request-Makes P plain id message memory h r framed) λ _.
        Makes-after P plain _ _ _ (search Steps.Quiet-get_response) λ response.
          Makes-if P (response.code == file_received_crc_ok) _ _ _ (compare_crc-Makes h response)
            (Makes-pure P _ _ tt)

  break_or-Makes :
      (again : M O (Option Bool)) (ended : Option Bool)
      → Makes P again Any
      → Makes P (break_or again ended) Any
  unfolding break_or
  break_or-Makes again none k = k
  break_or-Makes again (some status) k = Makes-pure P (some status) _ tt

  retry_loop-Makes :
      (left : ℕ) (h : Handler) (r : Request)
      → IsFramed id r
      → Makes {O = O} P (retry_loop left h r id) Any
  unfolding retry_loop
  retry_loop-Makes zero h r framed = Makes-pure P none _ tt
  retry_loop-Makes (suc left) h r framed =
      Makes-then P (attempt h r id) (break_or (retry_loop left h r id)) _ (attempt-Makes h r framed)
        λ ended. break_or-Makes (retry_loop left h r id) ended (retry_loop-Makes left h r framed)

  after_loop-Makes :
      (h : Handler) (ended : Option Bool) → Makes {O = O} P (after_loop h id ended) Any
  unfolding after_loop
  after_loop-Makes h (some status) = Makes-pure P status _ tt
  after_loop-Makes h none = Makes-after P plain _ _ _ (search Steps.Quiet-server_error) λ _.
      Makes-then P _ _ _ (send_crc_status_request-Makes h crc_incorrect_done (omega arith))
        λ accepted. Makes-pure P _ _ tt

  handle_retry_send_file-Makes :
      (h : Handler) (r : Request) (rounds : ℕ)
      → IsFramed id r
      → Makes {O = O} P (handle_retry_send_file h r rounds id) Any
  unfolding handle_retry_send_file
  handle_retry_send_file-Makes h r rounds framed =
      Makes-then P (retry_loop rounds h r id) (after_loop h id) _
        (retry_loop-Makes rounds h r framed) (after_loop-Makes h)

  pub handle_file_encryption_and_send-Makes :
      (L : Library) (h : Handler) (encrypted key : Bytes)
      → Makes {O = O} P (handle_file_encryption_and_send L h encrypted key id) Any
  unfolding handle_file_encryption_and_send
  handle_file_encryption_and_send-Makes L h encrypted key =
      Makes-after P plain _ _ _ (search Steps.Quiet-decrypt_with_rsa) λ aes_key.
        Makes-after P plain _ _ _ (search Steps.Quiet-read_file_contents) λ contents.
          Makes-after P plain _ _ _ (search Steps.Quiet-encrypt_with_aes) λ content.
            Makes-after P plain _ _ _ (search quiet_rules) λ heap.
              Makes-after P plain _ _ _ (search quiet_rules) λ payload.
                Makes-bind P (new_request id send_file _ payload) _ (IsFramed id) _
                  (new_request-Makes P plain id message memory send_file _ payload (omega arith))
                  λ r framed. handle_retry_send_file-Makes h r 3 framed
