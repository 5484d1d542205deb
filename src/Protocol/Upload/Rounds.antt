-- ===== src/Protocol/Upload/Rounds.antt =====
-- ProtocolHandler.cpp, `handleRetrySendFile`: what its result says of the rounds that it made.
use mathlib.Core.Bool.{true≢false}
use defensive_systems_open_u.Prelude.{
  ℕ, zero, suc, ◌<◌, ◌≡◌, ap, ◌∙◌, arith, Bool, true, false, Option, none, some, Bytes, ◌==◌,
  if◌then◌else◌, Bool-cases, inl, inr, ==_iff,
}
use defensive_systems_open_u.Checksum.File.{read_crc}
use defensive_systems_open_u.Constants.{file_received_crc_ok}
use defensive_systems_open_u.Protocol.Connection.{Handler, send_request, get_response}
use defensive_systems_open_u.Protocol.Message.{Request, Response}
use defensive_systems_open_u.Protocol.Upload.{
  received_crc, compare_crc, attempt, break_or, retry_loop, after_loop, handle_retry_send_file,
}
use defensive_systems_open_u.Protocol.Upload.Integrity.{>>=-ok, constant-ok, compare_crc-true}
use defensive_systems_open_u.Runtime.Os.{Os}
use defensive_systems_open_u.Runtime.Exec.{ok, pure}
use defensive_systems_open_u.Runtime.World.{World}

module _ {O : Os} (h : Handler) (content : Request) (id : Bytes) where
  -- The world after so many rounds.
  abbrev pub rounds : ℕ → World O → World O
  rounds zero w = w
  rounds (suc k) w = rounds k (attempt h content id w).1

  -- The reply to the upload that begins here carries the checksum that the file has.
  pub record Matched (w : World O) : Type 0 where
    pub response : Response
    pub crc : ℕ
    pub reply : (get_response h (send_request h content w).1).0 ≡ ok response
    pub code : response.code ≡ file_received_crc_ok
    pub received : received_crc response.payload ≡ some crc
    pub calculated :
        (read_crc h.file_path (get_response h (send_request h content w).1).1).0 ≡ ok crc

  reported :
      (r : Response) (w : World O)
      → ((if r.code == file_received_crc_ok then compare_crc h id r else pure none) w).0
        ≡ ok (some true)
      → (r.code ≡ file_received_crc_ok) × ((compare_crc h id r w).0 ≡ ok (some true))
  reported r w e = elim (Bool-cases (r.code == file_received_crc_ok)) [
    | inl same ↦ ((==_iff r.code file_received_crc_ok).0 same, rw same at e)
    | inr other ↦ absurd (impossible (rw other at e))
  ]
    where
      impossible : (pure {S = World O} none w).0 ≡ ok (some true) → ⊥
      impossible p = cc

  attempt-Matched : (w : World O) → (attempt h content id w).0 ≡ ok (some true) → Matched w
  unfolding attempt
  attempt-Matched w e =
      let (_, _, k) = >>=-ok (send_request h content) _ w e in
      let (r, found, rest) = >>=-ok (get_response h) _ (send_request h content w).1 k in
      let (same, compared) = reported r _ rest in
      let (c, received, calculated) = compare_crc-true h id r _ compared in
      record {
        response = r;
        crc = c;
        reply = found;
        code = same;
        received = received;
        calculated = calculated;
      }

  retry_loop-Matched :
      (left : ℕ) (w : World O)
      → (retry_loop left h content id w).0 ≡ ok (some true)
      → (k : ℕ) × (k < left) × Matched (rounds k w)
  unfolding retry_loop break_or
  retry_loop-Matched zero w e = cc
  retry_loop-Matched (suc left) w e =
      let (b, found, rest) = >>=-ok (attempt h content id) _ w e in
      ended (retry_loop-Matched left _) b found rest
    where
      ended :
          ((retry_loop left h content id (attempt h content id w).1).0 ≡ ok (some true)
            → (k : ℕ) × (k < left) × Matched (rounds k (attempt h content id w).1))
          → (b : Option Bool) → (attempt h content id w).0 ≡ ok b
          → (break_or (retry_loop left h content id) b (attempt h content id w).1).0
            ≡ ok (some true)
          → (k : ℕ) × (k < suc left) × Matched (rounds k w)
      ended later none found rest =
          let (k, lt, matched) = later rest in (suc k, omega arith, matched)
      ended later (some s) found rest = (0, omega arith, attempt-Matched w (found ∙ rest))

  after_loop-true :
      (status : Option Bool) (w : World O)
      → (after_loop h id status w).0 ≡ ok true
      → status ≡ some true
  unfolding after_loop
  after_loop-true none w e = absurd (true≢false (constant-ok _ _ false w e))
  after_loop-true (some status) w e = cc

  pub handle_retry_send_file-true :
      (max_retries : ℕ) (w : World O)
      → (handle_retry_send_file h content max_retries id w).0 ≡ ok true
      → (k : ℕ) × (k < max_retries) × Matched (rounds k w)
  unfolding handle_retry_send_file
  handle_retry_send_file-true max_retries w e =
      let (status, found, rest) = >>=-ok (retry_loop max_retries h content id) _ w e in
      retry_loop-Matched max_retries w (found ∙ ap ok (after_loop-true status _ rest))
