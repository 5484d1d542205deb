-- ===== src/Protocol/Order/Upload.antt =====
-- The order of requests in `handleRetrySendFile` and `handleFileEncryptionAndSend`.
use defensive_systems_open_u.Prelude.{
  ℕ, zero, suc, ◌+◌, ◌<◌, ◌≡◌, refl, ap, ◌∙◌, ◌⊎◌, inl, inr, Bool, true, false, Option, none, some,
  Bytes, arith, ◌==◌,
}
use defensive_systems_open_u.Constants.{
  send_file, crc_correct, crc_incorrect_resend, crc_incorrect_done, file_received_crc_ok,
}
use defensive_systems_open_u.Protocol.Connection.{Handler}
use defensive_systems_open_u.Protocol.Message.{Request, Response}
use defensive_systems_open_u.Protocol.Message.Layout.{IsRequest}
use defensive_systems_open_u.Protocol.Order.{
  Phase, keyed, uploaded, refused, confirmed, abandoned, step, max_uploads,
}
use defensive_systems_open_u.Protocol.Order.Rules.{From, From-pure, From-bind, From-quiet, From-if}
use defensive_systems_open_u.Protocol.Quiet.{quiet_rules}
use defensive_systems_open_u.Protocol.Order.Requests.{
  From-send_request, new_request-From, send_crc_status_request-From,
}
use defensive_systems_open_u.Protocol.Quiet.Steps
use defensive_systems_open_u.Protocol.Upload.{
  new_request, send_crc_status_request, accept_upload, refuse_upload, compare_crc, attempt,
  break_or, retry_loop, after_loop, handle_retry_send_file, handle_file_encryption_and_send,
}
use defensive_systems_open_u.Runtime.Library.{Library}
use defensive_systems_open_u.Runtime.Os.{Os}
use defensive_systems_open_u.Runtime.World.{M}

-- Ready to send the file again: it was sent `n` times, and the last time was not accepted.
abbrev IsReady : ℕ → Phase → Type 0
IsReady n p = ((n ≡ 0) × (p ≡ keyed)) ⊎ ((p ≡ uploaded n) ⊎ (p ≡ refused n))

step_ready :
    (n : ℕ) (p : Phase) → IsReady n p → n < max_uploads → step p send_file ≡ some (uploaded (n + 1))
step_ready n p r h = ground arith

step_spent : (p : Phase) → IsReady max_uploads p → step p crc_incorrect_done ≡ some abandoned
step_spent p r = ground arith

-- What a round of the loop leaves, the file having been sent `n` times.
abbrev AfterRound : ℕ → Option Bool → Phase → Type 0
AfterRound n none q = IsReady n q
AfterRound n (some status) q = q ≡ confirmed

-- The upload ends confirmed or abandoned, and with `true` only confirmed.
abbrev pub Ended : Bool → Phase → Type 0
Ended true q = q ≡ confirmed
Ended false q = (q ≡ confirmed) ⊎ (q ≡ abandoned)

Ended-confirmed : (status : Bool) (q : Phase) → q ≡ confirmed → Ended status q
Ended-confirmed true q e = e
Ended-confirmed false q e = inl e

module _ {O : Os} where
  break_or-From :
      (n : ℕ) (again : M O (Option Bool))
      → ((q : Phase) → IsReady n q → From q again (AfterRound max_uploads))
      → (ended : Option Bool) (q : Phase) → AfterRound n ended q
      → From q (break_or again ended) (AfterRound max_uploads)
  unfolding break_or
  break_or-From n again k none q ready = k q ready
  break_or-From n again k (some status) q e = From-pure q (some status) _ e

  accept_upload-From :
      (n : ℕ) (h : Handler) (id : Bytes)
      → From {O = O} (uploaded n) (accept_upload h id) (AfterRound n)
  unfolding accept_upload
  accept_upload-From n h id = From-quiet (uploaded n) _ _ _ (search Steps.Quiet-info) λ _.
      From-bind (uploaded n) (send_crc_status_request h id crc_correct) _ _ _
        (send_crc_status_request-From (uploaded n) confirmed h id crc_correct (omega arith) refl)
        λ accepted q moved. rw moved (
          From-if confirmed accepted _ _ _
            (From-quiet confirmed _ _ _ (search Steps.Quiet-info)
              λ _. From-pure confirmed (some true) _ refl)
            (From-quiet confirmed _ _ _ (search Steps.Quiet-server_error)
              λ _. From-pure confirmed (some false) _ refl))

  refuse_upload-From :
      (n : ℕ) (h : Handler) (id : Bytes)
      → From {O = O} (uploaded n) (refuse_upload h id) (AfterRound n)
  unfolding refuse_upload
  refuse_upload-From n h id = From-quiet (uploaded n) _ _ _ (search Steps.Quiet-error) λ _.
      From-bind (uploaded n) (send_crc_status_request h id crc_incorrect_resend) _ _ _
        (send_crc_status_request-From (uploaded n) (refused n) h id crc_incorrect_resend
          (omega arith) refl)
        λ accepted q moved. From-pure q none _ (inr (inr moved))

  compare_crc-From :
      (n : ℕ) (h : Handler) (id : Bytes) (r : Response)
      → From {O = O} (uploaded n) (compare_crc h id r) (AfterRound n)
  unfolding compare_crc
  compare_crc-From n h id r = From-quiet (uploaded n) _ _ _ (search quiet_rules) λ received.
      From-quiet (uploaded n) _ _ _ (search Steps.Quiet-read_crc) λ calculated.
        From-if (uploaded n) (received == calculated) _ _ _ (accept_upload-From n h id)
          (refuse_upload-From n h id)

  attempt-From :
      (n : ℕ) (p : Phase) (h : Handler) (r : Request) (id : Bytes)
      → IsRequest r
      → r.code ≡ send_file
      → IsReady n p
      → n < max_uploads
      → From {O = O} p (attempt h r id) (AfterRound (n + 1))
  unfolding attempt
  attempt-From n p h r id is coded ready few =
      From-send_request p (uploaded (n + 1)) h r _ _ is
        (ap (step p) coded ∙ step_ready n p ready few)
        (From-quiet (uploaded (n + 1)) _ _ _ (search Steps.Quiet-get_response) λ response.
          From-if (uploaded (n + 1)) (response.code == file_received_crc_ok) _ _ _
            (compare_crc-From (n + 1) h id response)
            (From-pure (uploaded (n + 1)) none _ (inr (inl refl))))

  -- With `left` rounds to go of three, the loop ends confirmed, or after the third upload.
  retry_loop-From :
      (left n : ℕ) (p : Phase) (h : Handler) (r : Request) (id : Bytes)
      → IsRequest r
      → r.code ≡ send_file
      → IsReady n p
      → n + left ≡ max_uploads
      → From {O = O} p (retry_loop left h r id) (AfterRound max_uploads)
  unfolding retry_loop
  retry_loop-From zero n p h r id is coded ready e = From-pure p none _ (rw spent at ready)
    where
      spent : n ≡ max_uploads
      spent = omega arith
  retry_loop-From (suc left) n p h r id is coded ready e =
      From-bind p (attempt h r id) _ _ _ (attempt-From n p h r id is coded ready (omega arith)) (
        break_or-From (n + 1) (retry_loop left h r id)
          λ q ready'. retry_loop-From left (n + 1) q h r id is coded ready' (omega arith))

  after_loop-From :
      (h : Handler) (id : Bytes) (ended : Option Bool) (q : Phase)
      → AfterRound max_uploads ended q
      → From {O = O} q (after_loop h id ended) Ended
  unfolding after_loop
  after_loop-From h id (some status) q e = From-pure q status _ (Ended-confirmed status q e)
  after_loop-From h id none q ready = From-quiet q _ _ _ (search Steps.Quiet-server_error) λ _.
      From-bind q (send_crc_status_request h id crc_incorrect_done) _ _ _
        (send_crc_status_request-From q abandoned h id crc_incorrect_done (omega arith)
          (step_spent q ready))
        λ accepted s moved. From-pure s false _ (inr moved)

  -- The file is sent at most three times, each status answers an upload, and nothing follows a
  -- confirmed or abandoned upload.
  pub handle_retry_send_file-From :
      (h : Handler) (r : Request) (id : Bytes)
      → IsRequest r
      → r.code ≡ send_file
      → From {O = O} keyed (handle_retry_send_file h r max_uploads id) Ended
  unfolding handle_retry_send_file
  handle_retry_send_file-From h r id is coded =
      From-bind keyed (retry_loop max_uploads h r id) _ _ _
        (retry_loop-From max_uploads 0 keyed h r id is coded (inl (refl, refl)) (omega arith))
        (after_loop-From h id)

module _ {O : Os} (L : Library) where
  pub handle_file_encryption_and_send-From :
      (h : Handler) (encrypted key id : Bytes)
      → From {O = O} keyed (handle_file_encryption_and_send L h encrypted key id) Ended
  unfolding handle_file_encryption_and_send
  handle_file_encryption_and_send-From h encrypted key id =
      From-quiet keyed _ _ _ (search (Steps.Quiet-decrypt_with_rsa)) λ aes_key.
        From-quiet keyed _ _ _ (search Steps.Quiet-read_file_contents) λ contents.
          From-quiet keyed _ _ _ (search Steps.Quiet-encrypt_with_aes) λ content.
            From-quiet keyed _ _ _ (search quiet_rules) λ heap.
              From-quiet keyed _ _ _ (search quiet_rules) λ payload.
                From-bind keyed (new_request id send_file _ payload) _ _ _
                  (new_request-From keyed id send_file _ payload (omega arith))
                  λ r q (is, coded, stays). rw stays (handle_retry_send_file-From h r id is coded)
