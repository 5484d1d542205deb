-- ===== src/Protocol/Defined/Rounds.antt =====
-- The rounds of the upload make no access out of bounds, in ProtocolHandler.cpp.
use defensive_systems_open_u.Prelude.{
  ℕ, zero, suc, ◌+◌, ◌≤◌, ◌≡◌, refl, arith, Bool, Option, none, some, length, Bytes, ◌==◌, ==_iff,
  Bool-cases, inl, inr,
}
use defensive_systems_open_u.Constants.{
  send_file, crc_correct, crc_incorrect_resend, crc_incorrect_done, file_received_crc_ok,
}
use defensive_systems_open_u.Protocol.Connection.{Handler, get_response}
use defensive_systems_open_u.Protocol.Defined.{
  Sure, Defined, Defined-pure, Defined-bind, Defined-in_bounds, Defined-if, Safe, Defined-after,
  safe_rules,
}
use defensive_systems_open_u.Runtime.Exec.{Any, Result, ok, thrown, fault, gets}
use defensive_systems_open_u.Protocol.Defined.Requests.{
  IsWhole, allocated, send_request-Defined, new_request-Defined, send_crc_status_request-Defined,
}
use defensive_systems_open_u.Protocol.Defined.Steps
use defensive_systems_open_u.Protocol.Defined.Upload.{
  ReadsFiles, HasChecksum, received_crc-some, file_payload_some, read_crc-Defined,
  encrypt_with_aes-Defined,
}
use defensive_systems_open_u.Protocol.Message.{Request, Response}
use defensive_systems_open_u.Protocol.Payload.{create_file_payload_buffer}
use defensive_systems_open_u.Protocol.Upload.{
  received_crc, new_request, accept_upload, refuse_upload, compare_crc, attempt, break_or,
  retry_loop, send_crc_status_request, after_loop, handle_retry_send_file,
  handle_file_encryption_and_send,
}
use defensive_systems_open_u.Runtime.Library.{Library}
use defensive_systems_open_u.Runtime.Os.{Os}
use defensive_systems_open_u.Runtime.World.{World, M}

Sure-known :
    {A : Type 0} {Q : A → Type 0} (r : Result A)
    → Sure Any r
    → ((a : A) → r ≡ ok a → Q a)
    → Sure Q r
Sure-known (ok a) s k = k a refl
Sure-known (thrown e) s k = tt
Sure-known fault s k = s

module _ {O : Os} (memory : (n : ℕ) (s : O.State) → length (O.garbage n s) ≡ n)
    (files : ReadsFiles O)
    (replies : (h : Handler) (w : World O) (r : Response)
      → (get_response h w).0 ≡ ok r
      → HasChecksum r)
    (h : Handler) (id : Bytes) (h16 : length id ≡ 16) where
  get_response-Defined : Defined {O = O} (get_response h) HasChecksum
  get_response-Defined = record {
    run =
        λ w. Sure-known (get_response h w).0 ((Steps.Safe-get_response h).safe.run w) (replies h w);
  }

  accept_upload-Defined : Defined {O = O} (accept_upload h id) Any
  unfolding accept_upload
  accept_upload-Defined = Defined-after _ _ _ (search Steps.Safe-info) λ _.
      Defined-bind (send_crc_status_request h id crc_correct) _ Any _
        (send_crc_status_request-Defined memory h id crc_correct h16)
        λ accepted _. Safe.safe (search (safe_rules, Steps.Safe-info, Steps.Safe-server_error))

  refuse_upload-Defined : Defined {O = O} (refuse_upload h id) Any
  unfolding refuse_upload
  refuse_upload-Defined = Defined-after _ _ _ (search Steps.Safe-error) λ _.
      Defined-bind (send_crc_status_request h id crc_incorrect_resend) _ Any _
        (send_crc_status_request-Defined memory h id crc_incorrect_resend h16)
        λ accepted _. Defined-pure _ _ tt

  compare_crc-Defined :
      (r : Response) → 4 ≤ length r.payload → Defined {O = O} (compare_crc h id r) Any
  unfolding compare_crc
  compare_crc-Defined r long =
      let (c, found) = received_crc-some r.payload long in
      Defined-in_bounds (received_crc r.payload) _ _ found (
        Defined-bind _ _ Any _ (read_crc-Defined files h.file_path) λ calculated _.
          Defined-if (c == calculated) _ _ _ accept_upload-Defined refuse_upload-Defined)

  attempt-Defined : (r : Request) → IsWhole r → Defined {O = O} (attempt h r id) Any
  unfolding attempt
  attempt-Defined r whole = Defined-bind _ _ Any _ (send_request-Defined memory h r whole) λ _ _.
      Defined-bind (get_response h) _ HasChecksum _ get_response-Defined λ response long.
        elim (Bool-cases (response.code == file_received_crc_ok)) [
          | inl e ↦ rw e (
              compare_crc-Defined response (long ((==_iff response.code file_received_crc_ok).0 e)))
          | inr e ↦ rw e (Defined-pure _ _ tt)
        ]

  break_or-Defined :
      (again : M O (Option Bool)) (ended : Option Bool)
      → Defined again Any
      → Defined (break_or again ended) Any
  unfolding break_or
  break_or-Defined again none k = k
  break_or-Defined again (some status) k = Defined-pure _ _ tt

  retry_loop-Defined :
      (left : ℕ) (r : Request) → IsWhole r → Defined {O = O} (retry_loop left h r id) Any
  unfolding retry_loop
  retry_loop-Defined zero r whole = Defined-pure _ _ tt
  retry_loop-Defined (suc left) r whole =
      Defined-bind (attempt h r id) (break_or (retry_loop left h r id)) Any _
        (attempt-Defined r whole)
        λ ended _. break_or-Defined (retry_loop left h r id) ended (retry_loop-Defined left r whole)

  after_loop-Defined : (ended : Option Bool) → Defined {O = O} (after_loop h id ended) Any
  unfolding after_loop
  after_loop-Defined (some status) = Defined-pure _ _ tt
  after_loop-Defined none = Defined-after _ _ _ (search Steps.Safe-server_error) λ _.
      Defined-bind (send_crc_status_request h id crc_incorrect_done) _ Any _
        (send_crc_status_request-Defined memory h id crc_incorrect_done h16)
        λ accepted _. Defined-pure _ _ tt

  handle_retry_send_file-Defined :
      (rounds : ℕ) (r : Request)
      → IsWhole r
      → Defined {O = O} (handle_retry_send_file h r rounds id) Any
  unfolding handle_retry_send_file
  handle_retry_send_file-Defined rounds r whole =
      Defined-bind (retry_loop rounds h r id) (after_loop h id) Any _
        (retry_loop-Defined rounds r whole) λ ended _. after_loop-Defined ended

  pub handle_file_encryption_and_send-Defined :
      (L : Library) (encrypted key : Bytes)
      → Defined {O = O} (handle_file_encryption_and_send L h encrypted key id) Any
  unfolding handle_file_encryption_and_send
  handle_file_encryption_and_send-Defined L encrypted key =
      Defined-after _ _ _ (search Steps.Safe-decrypt_with_rsa) λ aes_key.
        Defined-after _ _ _ (search Steps.Safe-read_file_contents) λ contents.
          Defined-bind _ _ Any _ (encrypt_with_aes-Defined L contents aes_key) λ content _.
            Defined-bind (gets (λ w. O.garbage (4 + 255 + length content + 1) w.os)) _
              (λ heap. length heap ≡ 4 + 255 + length content + 1) _ (allocated memory _)
              λ heap room.
                let (payload, built, size) = file_payload_some h.file_path content heap room in
                Defined-in_bounds (create_file_payload_buffer h.file_path content heap) _ _ built (
                  Defined-bind (new_request id send_file _ payload) _ IsWhole _
                    (new_request-Defined memory id send_file _ payload h16
                      (omega (arith, size, room)))
                    λ r whole. handle_retry_send_file-Defined 3 r whole)
