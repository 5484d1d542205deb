-- ===== src/Protocol/Upload/Short.antt =====
-- ProtocolHandler.cpp, `handleRetrySendFile`: a reply to the upload that is too short for a checksum.
use defensive_systems_open_u.Prelude.{
  ℕ, suc, ◌^◌, ◌≤◌, ◌<◌, ◌≡◌, refl, ap, ◌∙◌, arith, none, List, length, Bytes, ==_iff,
}
use defensive_systems_open_u.Constants.{file_received_crc_ok}
use defensive_systems_open_u.Protocol.Connection.{Handler, send_request, get_response}
use defensive_systems_open_u.Protocol.Message.{Request, Response}
use defensive_systems_open_u.Protocol.Message.Layout.{IsRequest, receive}
use defensive_systems_open_u.Protocol.Success.Exchange.{
  as_received, send_request-Runs, get_response-Runs,
}
use defensive_systems_open_u.Protocol.Success.Rules.{Runs}
use defensive_systems_open_u.Protocol.Success.Server.{Exchange}
use defensive_systems_open_u.Protocol.Upload.{
  received_crc, compare_crc, attempt, retry_loop, handle_retry_send_file,
}
use defensive_systems_open_u.Runtime.Os.{Os}
use defensive_systems_open_u.Runtime.Exec.{Result, fault, continue, ◌>>=◌}
use defensive_systems_open_u.Runtime.World.{World, M, Event}

module _ {O : Os} where
  -- In the state `s`, whatever has been seen before, the action ends in undefined behaviour.
  record Faults {A : Type 0} (m : M O A) (s : O.State) : Type 0 where
    run : (t : List Event) → (m (record { os = s; trace = t })).0 ≡ fault

  Faults-after :
      {A B : Type 0} (m : M O A) (f : A → M O B) (s : O.State) (Q : A → O.State → Type 0)
      → Runs m s Q
      → ((a : A) (s' : O.State) → Q a s' → Faults (f a) s')
      → Faults (m >>= f) s
  unfolding ◌>>=◌
  Faults-after m f s Q h k = record {
    run = λ t.
        let (a, s', t', e, q) = h.run t in
        ap (λ (p : Result _ × World O). (continue f p).0) e ∙ (k a s' q).run t';
  }

  continue-fault :
      {A B : Type 0} (f : A → M O B) (p : Result A × World O)
      → p.0 ≡ fault
      → (continue f p).0 ≡ fault
  continue-fault f (r, w) e = rw e refl

  Faults-first :
      {A B : Type 0} (m : M O A) (f : A → M O B) (s : O.State) → Faults m s → Faults (m >>= f) s
  unfolding ◌>>=◌
  Faults-first m f s h = record { run = λ t. continue-fault f (m _) (h.run t) }

-- A checksum is announced and there is no room for it.
abbrev pub IsCutOff : ℕ → Bytes → Type 0
IsCutOff code payload = (code ≡ 2103) × (length payload < 4)

received_crc-IsCutOff : (code : ℕ) (p : Bytes) → IsCutOff code p → received_crc p ≡ none
unfolding received_crc
received_crc-IsCutOff code p (_, short) = ground arith

module _ {O : Os} (h : Handler) (id : Bytes) where
  compare_crc-Faults :
      (r : Response) (s : O.State)
      → IsCutOff r.code r.payload
      → Faults {O = O} (compare_crc h id r) s
  unfolding compare_crc ◌>>=◌
  compare_crc-Faults r s cut = record {
    run = λ t. rw (received_crc-IsCutOff r.code r.payload cut) refl;
  }

  module _ (memory : (n : ℕ) (s : O.State) → length (O.garbage n s) ≡ n) (r : Request)
      (is : IsRequest r) (fits : r.payload_size < 2 ^ 32)
      (enough : r.payload_size ≤ length r.payload) (s : O.State)
      (server : (b : Bytes)
        → receive b ≡ as_received r
        → Exchange O h.socket s b (λ code payload s'. IsCutOff code payload)) where
    attempt-Faults : Faults {O = O} (attempt h r id) s
    unfolding attempt
    attempt-Faults =
        Faults-after (send_request h r) _ s _
          (send_request-Runs h r s (λ code payload s'. IsCutOff code payload) memory is fits enough
            server)
          λ a s1 replied.
            Faults-after (get_response h) _ s1 _
              (get_response-Runs h s1 (λ code payload s'. IsCutOff code payload) replied)
              λ response s2 (cut : IsCutOff response.code response.payload).
                rw ((==_iff response.code file_received_crc_ok).1 cut.0)
                  (compare_crc-Faults response s2 cut)

    -- A server can make an upload end in undefined behaviour. Where the upload is sent, and the reply
    -- to it arrives as a header and a whole payload, with the code 2103 and fewer than four bytes of
    -- payload, handleRetrySendFile with one round or more to go ends neither with a status nor with an
    -- exception, but in `fault`. This supposes that memory which is allocated has the size that was
    -- asked for, and of the request a client id of sixteen bytes, a code and a size that fit their
    -- fields, and a payload of that size or more.
    pub handle_retry_send_file-short :
        (rounds : ℕ) (t : List Event)
        → (handle_retry_send_file {O = O} h r (suc rounds) id (record { os = s; trace = t })).0
          ≡ fault
    unfolding handle_retry_send_file retry_loop
    handle_retry_send_file-short rounds =
        (Faults-first (retry_loop (suc rounds) h r id) _ s
          (Faults-first (attempt h r id) _ s attempt-Faults)).run
