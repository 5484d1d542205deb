-- ===== src/Protocol/Success/Upload.antt =====
-- ProtocolHandler.cpp, `handleRetrySendFile` against a server that serves.
use defensive_systems_open_u.Prelude.{
  ℕ, suc, ◌+◌, ◌-◌, ◌^◌, ◌≤◌, ◌<◌, ◌≡◌, refl, ap, ◌∙◌, arith, true, some, ◌++◌, length,
  length-append, take, drop, Bytes, IsBytes, ltb, false, ==_iff,
}
use defensive_systems_open_u.Buffer.{padded, little}
use defensive_systems_open_u.Buffer.Laws.{drop-append_all}
use defensive_systems_open_u.Checksum.{int_max}
use defensive_systems_open_u.Checksum.Cksum.{cksum}
use defensive_systems_open_u.Checksum.Memcrc.{cksum-lt}
use defensive_systems_open_u.Checksum.File.{read_crc}
use defensive_systems_open_u.Checksum.File.Value.{read_crc-cksum}
use defensive_systems_open_u.Constants.{confirm_msg, crc_correct, file_received_crc_ok}
use defensive_systems_open_u.Crypto.Hex.{unhex}
use defensive_systems_open_u.Protocol.Connection.{Handler, send_request, get_response}
use defensive_systems_open_u.Protocol.Message.{Request, Response}
use defensive_systems_open_u.Protocol.Message.Layout.{IsRequest, receive}
use defensive_systems_open_u.Protocol.Success.Exchange.{
  as_received, send_request-Runs, get_response-Runs,
}
use defensive_systems_open_u.Protocol.Success.Rules.{
  Runs, Runs-pure, Runs-bind, Runs-step, Runs-in_bounds, Runs-says, Says-info,
}
use defensive_systems_open_u.Protocol.Success.Server.{keyed, received, done, Exchange, IsServer}
use defensive_systems_open_u.Protocol.Success.Status.{send_crc_status_request-Runs}
use defensive_systems_open_u.Protocol.Upload.{
  received_crc, send_crc_status_request, accept_upload, compare_crc, attempt, break_or, retry_loop,
  after_loop, handle_retry_send_file,
}
use defensive_systems_open_u.Runtime.Library.{Library}
use defensive_systems_open_u.Runtime.Os.{Os}

pub received_crc-append :
    (front : Bytes) (crc : ℕ) → crc < 2 ^ 32 → received_crc (front ++ little 4 crc) ≡ some crc
unfolding received_crc
received_crc-append front crc h = rw (long, last) (ap some (omega arith))
  where
    size : length (front ++ little 4 crc) ≡ length front + 4
    size = length-append front (little 4 crc)

    long : ltb (length (front ++ little 4 crc)) 4 ≡ false
    long = ground (arith, size)

    last : drop (length (front ++ little 4 crc) - 4) (front ++ little 4 crc) ≡ little 4 crc
    last = drop-append_all front (little 4 crc) _ (omega (arith, size))

module _ {O : Os} {L : Library} (h : Handler) (contents : Bytes)
    (server : IsServer O L h.socket h.client_name h.file_path contents) (bytes : IsBytes contents)
    (small : length contents ≤ int_max) where
  open server use {In}

  send_crc_correct-Runs :
      (id : Bytes) (s : O.State)
      → length id ≡ 16
      → In (received id) s
      → Runs {O = O} (send_crc_status_request h id crc_correct) s (λ a s'. (a ≡ true) × In done s')
  send_crc_correct-Runs id s h16 at =
      send_crc_status_request-Runs h server.length-garbage id crc_correct s
        (λ code payload s'. (code ≡ 2104) × In done s') _ h16 (omega arith)
        (λ b code client_id. server.confirms s b id at code client_id)
        λ answer payload s' (good : (answer ≡ 2104) × In done s').
          ((==_iff answer confirm_msg).1 good.0, good.1)

  accept_upload-Runs :
      (id : Bytes) (s : O.State)
      → length id ≡ 16
      → In (received id) s
      → Runs {O = O} (accept_upload h id) s (λ a s'. (a ≡ some true) × In done s')
  unfolding accept_upload
  accept_upload-Runs id s h16 at = Runs-says _ _ s _ (search Says-info) (
      Runs-bind (send_crc_status_request h id crc_correct) _ s _ _
        (send_crc_correct-Runs id s h16 at)
        λ a s' (good : (a ≡ true) × In done s').
          rw good.0 (Runs-says _ _ s' _ (search Says-info) (Runs-pure _ s' _ (refl, good.1))))

  compare_crc-Runs :
      (id : Bytes) (r : Response) (front : Bytes) (s : O.State)
      → length id ≡ 16
      → r.payload ≡ front ++ little 4 (cksum contents)
      → In (received id) s
      → Runs {O = O} (compare_crc h id r) s (λ a s'. (a ≡ some true) × In done s')
  unfolding compare_crc
  compare_crc-Runs id r front s h16 e at =
      let file = server.file (received id) s at in
      Runs-in_bounds (received_crc r.payload) _ s _
        (ap received_crc e ∙ received_crc-append front (cksum contents) (cksum-lt contents))
        (Runs-step (read_crc h.file_path) _ s _ (cksum contents) s
          (λ t. (
            t,
            read_crc-cksum h.file_path (record { os = s; trace = t }) contents contents file.opens
                file.sized file.reads bytes small,
          ))
          (rw ((==_iff (cksum contents) (cksum contents)).1 refl) (accept_upload-Runs id s h16 at)))

  -- A request that carries the file, as the server will read it.
  pub record Carries (r : Request) (id aes : Bytes) : Type 0 where
    pub is : IsRequest r
    pub size_fits : r.payload_size < 2 ^ 32
    pub enough : r.payload_size ≤ length r.payload
    pub code : r.code ≡ 1028
    pub client_id : r.client_id ≡ id
    pub name : take 255 (drop 4 (take r.payload_size r.payload)) ≡ padded 255 h.file_path
    pub plain :
        L.cbc_decrypt aes
          (take 16 (unhex (drop 259 (take r.payload_size r.payload))))
          (drop 16 (unhex (drop 259 (take r.payload_size r.payload))))
        ≡ some contents

  Reported : Bytes → ℕ → Bytes → O.State → Type 0
  Reported id code payload s =
      (code ≡ 2103)
      × ((front : Bytes) × (payload ≡ front ++ little 4 (cksum contents)) × In (received id) s)

  module _ (r : Request) (id aes : Bytes) (c : Carries r id aes) (h16 : length id ≡ 16) where
    attempt-exchange :
        (s : O.State) (b : Bytes)
        → In (keyed id aes) s
        → receive b ≡ as_received r
        → Exchange O h.socket s b (Reported id)
    unfolding Reported
    attempt-exchange s b at e =
        let same = ap (λ x. x.payload) e in
        server.reports s b id aes contents at (ap (λ x. x.code) e ∙ c.code)
          (ap (λ x. x.client_id) e ∙ c.client_id)
          (ap (λ (p : Bytes). take 255 (drop 4 p)) same ∙ c.name)
          (ap
              (λ (p : Bytes).
                L.cbc_decrypt aes (take 16 (unhex (drop 259 p))) (drop 16 (unhex (drop 259 p))))
              same
            ∙ c.plain)

    attempt-Runs :
        (s : O.State)
        → In (keyed id aes) s
        → Runs {O = O} (attempt h r id) s (λ a s'. (a ≡ some true) × In done s')
    unfolding attempt Reported
    attempt-Runs s at =
        Runs-bind (send_request h r) _ s _ _
          (send_request-Runs h r s (Reported id) server.length-garbage c.is c.size_fits c.enough
            (λ b e. attempt-exchange s b at e))
          λ a s1 replied.
            Runs-bind (get_response h) _ s1 _ _ (get_response-Runs h s1 (Reported id) replied)
              λ response s2 (good : Reported id response.code response.payload s2).
                let (code, (front, e, at2)) = good in
                rw ((==_iff response.code file_received_crc_ok).1 code)
                  (compare_crc-Runs id response front s2 h16 e at2)

    retry_loop-Runs :
        (left : ℕ) (s : O.State)
        → In (keyed id aes) s
        → Runs {O = O} (retry_loop (suc left) h r id) s (λ a s'. (a ≡ some true) × In done s')
    unfolding retry_loop break_or
    retry_loop-Runs left s at =
        Runs-bind (attempt h r id) _ s _ _ (attempt-Runs s at)
          λ a s' (good : (a ≡ some true) × In done s').
            rw good.0 (Runs-pure (some true) s' _ (refl, good.1))

    -- The first round is accepted.
    pub handle_retry_send_file-Runs :
        (left : ℕ) (s : O.State)
        → In (keyed id aes) s
        → Runs {O = O}
            (handle_retry_send_file h r (suc left) id)
            s
            (λ a s'. (a ≡ true) × In done s')
    unfolding handle_retry_send_file after_loop
    handle_retry_send_file-Runs left s at =
        Runs-bind (retry_loop (suc left) h r id) _ s _ _ (retry_loop-Runs left s at)
          λ a s' (good : (a ≡ some true) × In done s').
            rw good.0 (Runs-pure true s' _ (refl, good.1))
