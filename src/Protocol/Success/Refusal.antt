-- ===== src/Protocol/Success/Refusal.antt =====
-- ProtocolHandler.cpp, `handleRetrySendFile` against a server that never has the file right.
use defensive_systems_open_u.Prelude.{
  ℕ, zero, suc, ◌+◌, ◌^◌, ◌≤◌, ◌<◌, ◌≡◌, ◌≢◌, refl, ap, ◌∙◌, arith, Bool, false, Option, none, ◌++◌,
  length, Bytes, IsBytes, ◌==◌, ==_iff, Bool-cases, inl, inr,
}
use defensive_systems_open_u.Buffer.{little}
use defensive_systems_open_u.Checksum.{int_max}
use defensive_systems_open_u.Checksum.Cksum.{cksum}
use defensive_systems_open_u.Checksum.File.{read_crc}
use defensive_systems_open_u.Checksum.File.Value.{read_crc-cksum}
use defensive_systems_open_u.Constants.{
  crc_incorrect_resend, crc_incorrect_done, file_received_crc_ok,
}
use defensive_systems_open_u.Protocol.Connection.{Handler, send_request, get_response}
use defensive_systems_open_u.Protocol.Message.{Request, Response}
use defensive_systems_open_u.Protocol.Message.Layout.{IsRequest, receive}
use defensive_systems_open_u.Protocol.Success.Exchange.{send_request-Runs, get_response-Runs}
use defensive_systems_open_u.Protocol.Success.Rules.{
  Runs, Runs-pure, Runs-bind, Runs-step, Runs-in_bounds, Runs-says, Says-error, Says-server_error,
}
use defensive_systems_open_u.Protocol.Success.Server.{Exchange, Holds}
use defensive_systems_open_u.Protocol.Success.Status.{send_crc_status_request-Runs}
use defensive_systems_open_u.Protocol.Success.Upload.{received_crc-append}
use defensive_systems_open_u.Protocol.Upload.{
  received_crc, send_crc_status_request, refuse_upload, compare_crc, attempt, break_or, retry_loop,
  after_loop, handle_retry_send_file,
}
use defensive_systems_open_u.Runtime.Os.{Os}

-- How often the server has been told that its checksum is wrong, and what it waits for.
pub data Turn : Type 0 where
  awaiting : ℕ → Turn
  -- a wrong checksum has been sent
  reported : ℕ → Turn
  -- the client has given up
  over : ℕ → Turn

-- A server behind the socket `fd` that answers each upload with a checksum other than the file's.
pub record IsStubborn (O : Os) (fd : ℕ) (path contents : Bytes) : Type 1 where
  pub In : Turn → O.State → Type 0
  pub length-garbage : (n : ℕ) (s : O.State) → length (O.garbage n s) ≡ n
  pub file : (n : ℕ) (s : O.State) → In (reported n) s → Holds O path contents s
  pub reports :
      (n : ℕ) (s : O.State) (b : Bytes)
      → In (awaiting n) s
      → (receive b).code ≡ 1028
      → Exchange O fd s b (λ code payload s'.
        (code ≡ 2103)
        × ((front : Bytes) × (crc : ℕ) × (payload ≡ front ++ little 4 crc)
            × (crc < 2 ^ 32)
            × (crc ≢ cksum contents)
            × In (reported n) s'))
  pub retries :
      (n : ℕ) (s : O.State) (b : Bytes)
      → In (reported n) s
      → (receive b).code ≡ 1030
      → Exchange O fd s b (λ code payload s'. In (awaiting (n + 1)) s')
  pub ends :
      (n : ℕ) (s : O.State) (b : Bytes)
      → In (awaiting n) s
      → (receive b).code ≡ 1031
      → Exchange O fd s b (λ code payload s'. In (over n) s')

module _ {O : Os} (h : Handler) (contents : Bytes)
    (server : IsStubborn O h.socket h.file_path contents) (bytes : IsBytes contents)
    (small : length contents ≤ int_max) (id : Bytes) (h16 : length id ≡ 16) where
  open server use {In}

  -- The round leaves no status, and the server counts one more.
  Refused : ℕ → Option Bool → O.State → Type 0
  Refused n a s = (a ≡ none) × In (awaiting (n + 1)) s

  refuse_upload-Runs :
      (n : ℕ) (s : O.State) → In (reported n) s → Runs {O = O} (refuse_upload h id) s (Refused n)
  unfolding refuse_upload Refused
  refuse_upload-Runs n s at = Runs-says _ _ s _ (search Says-error) (
      Runs-bind (send_crc_status_request h id crc_incorrect_resend) _ s
        (λ a s'. In (awaiting (n + 1)) s') _
        (send_crc_status_request-Runs h server.length-garbage id crc_incorrect_resend s
          (λ code payload s'. In (awaiting (n + 1)) s') _ h16 (omega arith)
          (λ b code client_id. server.retries n s b at code) (λ answer payload s' good. good))
        λ a s' good. Runs-pure none s' _ (refl, good))

  compare_crc-Runs :
      (n : ℕ) (r : Response) (front : Bytes) (crc : ℕ) (s : O.State)
      → r.payload ≡ front ++ little 4 crc
      → crc < 2 ^ 32
      → crc ≢ cksum contents
      → In (reported n) s
      → Runs {O = O} (compare_crc h id r) s (Refused n)
  unfolding compare_crc
  compare_crc-Runs n r front crc s e fits wrong at =
      let file = server.file n s at in
      Runs-in_bounds (received_crc r.payload) _ s _
        (ap received_crc e ∙ received_crc-append front crc fits)
        (Runs-step (read_crc h.file_path) _ s _ (cksum contents) s
          (λ t. (
            t,
            read_crc-cksum h.file_path (record { os = s; trace = t }) contents contents file.opens
                file.sized file.reads bytes small,
          ))
          (rw differ (refuse_upload-Runs n s at)))
    where
      differ : (crc == cksum contents) ≡ false
      differ = elim (Bool-cases (crc == cksum contents)) [
        | inl same ↦ elim (wrong ((==_iff crc (cksum contents)).0 same)) [ ]
        | inr other ↦ other
      ]

  module _ (r : Request) (is : IsRequest r) (size_fits : r.payload_size < 2 ^ 32)
      (enough : r.payload_size ≤ length r.payload) (code : r.code ≡ 1028) where
    attempt-Runs :
        (n : ℕ) (s : O.State) → In (awaiting n) s → Runs {O = O} (attempt h r id) s (Refused n)
    unfolding attempt
    attempt-Runs n s at =
        Runs-bind (send_request h r) _ s _ _
          (send_request-Runs h r s Reported server.length-garbage is size_fits enough
            (λ b e. server.reports n s b at (ap (λ x. x.code) e ∙ code)))
          λ a s1 replied.
            Runs-bind (get_response h) _ s1 _ _ (get_response-Runs h s1 Reported replied)
              λ response s2 (good : Reported response.code response.payload s2).
                let (same, (front, crc, e, fits, wrong, at2)) = good in
                rw ((==_iff response.code file_received_crc_ok).1 same)
                  (compare_crc-Runs n response front crc s2 e fits wrong at2)
      where
        Reported : ℕ → Bytes → O.State → Type 0
        Reported code payload s' =
            (code ≡ 2103)
            × ((front : Bytes) × (crc : ℕ) × (payload ≡ front ++ little 4 crc)
                × (crc < 2 ^ 32)
                × (crc ≢ cksum contents)
                × In (reported n) s')

    retry_loop-Runs :
        (left n total : ℕ) (s : O.State)
        → n + left ≡ total
        → In (awaiting n) s
        → Runs {O = O} (retry_loop left h r id) s (λ a s'. (a ≡ none) × In (awaiting total) s')
    unfolding retry_loop break_or Refused
    retry_loop-Runs zero n total s e at = Runs-pure none s _ (refl, rw (same) at)
      where
        same : total ≡ n
        same = omega arith
    retry_loop-Runs (suc left) n total s e at =
        Runs-bind (attempt h r id) _ s (Refused n) _ (attempt-Runs n s at)
          λ a s' (good : (a ≡ none) × In (awaiting (n + 1)) s').
            rw good.0 (retry_loop-Runs left (n + 1) total s' (omega arith) good.1)

    -- Where every checksum of the server differs from the file's, the file is sent again until the
    -- last round, each checksum is refused, the server is told at the end that the client gives up,
    -- and the result is false.
    pub handle_retry_send_file-refused :
        (rounds : ℕ) (s : O.State)
        → In (awaiting 0) s
        → Runs {O = O}
            (handle_retry_send_file h r rounds id)
            s
            (λ a s'. (a ≡ false) × In (over rounds) s')
    unfolding handle_retry_send_file after_loop
    handle_retry_send_file-refused rounds s at =
        Runs-bind (retry_loop rounds h r id) _ s (λ a s'. (a ≡ none) × In (awaiting rounds) s') _
          (retry_loop-Runs rounds 0 rounds s (omega arith) at)
          λ a s1 (good : (a ≡ none) × In (awaiting rounds) s1). rw good.0 (
            Runs-says _ _ s1 _ (search Says-server_error) (
              Runs-bind (send_crc_status_request h id crc_incorrect_done) _ s1
                (λ a s'. In (over rounds) s') _
                (send_crc_status_request-Runs h server.length-garbage id crc_incorrect_done s1
                  (λ code payload s'. In (over rounds) s') _ h16 (omega arith)
                  (λ b code client_id. server.ends rounds s1 b good.1 code)
                  (λ answer payload s' good. good))
                λ a s' end. Runs-pure false s' _ (refl, end)))
