-- ===== src/Protocol/Upload/Unreadable.antt =====
-- ProtocolHandler.cpp, `handleRetrySendFile`: the comparison where the file cannot be opened any more.
use defensive_systems_open_u.Prelude.{
  ℕ, ◌+◌, ◌^◌, ◌≤◌, ◌<◌, ◌≡◌, refl, arith, Option, none, some, List, [], ◌∷◌, ◌++◌, length, Bytes,
  codes, newline,
}
use defensive_systems_open_u.Buffer.Laws.{read_at_fits, take_all}
use defensive_systems_open_u.Checksum.File.Value.{read_crc_closed}
use defensive_systems_open_u.Constants.{crc_correct}
use defensive_systems_open_u.Logger
use defensive_systems_open_u.Protocol.Connection.{Handler, logger, call_send, send_request}
use defensive_systems_open_u.Protocol.Message.{Request, Response, header_size, serialise}
use defensive_systems_open_u.Protocol.Message.Layout.{
  IsRequest, Received, receive, receive-serialise,
}
use defensive_systems_open_u.Protocol.Payload.{status_payload}
use defensive_systems_open_u.Protocol.Payload.Layout.{status_payload_lem}
use defensive_systems_open_u.Protocol.Quiet.{IsPlain, Quiet, quiet_rules}
use defensive_systems_open_u.Protocol.Quiet.Steps
use defensive_systems_open_u.Protocol.Success.Exchange.{made, as_received}
use defensive_systems_open_u.Protocol.Upload.{
  received_crc, new_request, send_crc_status_request, accept_upload, compare_crc,
}
use defensive_systems_open_u.Runtime.Os.{Os}
use defensive_systems_open_u.Runtime.Exec.{
  Result, ok, thrown, fault, gets, in_bounds, continue, ◌>>=◌,
}
use defensive_systems_open_u.Runtime.Trace.{Adds, Adds-refl, Adds-trans}
use defensive_systems_open_u.Runtime.World.{World, M, Event, sent, cerr, printed}

-- From `t` to `t'` there is text, one message with `Q`, and text again.
pub record OneMessage (Q : Received → Type 0) (t t' : List Event) : Type 0 where
  pub message : Bytes
  pub holds : Q (receive message)
  pub middle : List Event
  pub before : Adds IsPlain t middle
  pub after : Adds IsPlain (middle ++ (sent message ∷ [])) t'

module _ {O : Os} (Q : Received → Type 0) where
  -- However it ends, the action sends one message, with `Q`, and else only prints.
  record Sends {A : Type 0} (m : M O A) : Type 0 where
    run : (w : World O) → OneMessage Q w.trace (m w).1.trace

  Sends-gets :
      {A B : Type 0} (g : World O → A) (f : A → M O B)
      → ((w : World O) → Sends (f (g w)))
      → Sends (gets g >>= f)
  unfolding ◌>>=◌
  Sends-gets g f k = record { run = λ w. (k w).run w }

  Sends-in_bounds :
      {A B : Type 0} (o : Option A) (f : A → M O B) {a : A}
      → o ≡ some a
      → Sends (f a)
      → Sends (in_bounds o >>= f)
  unfolding ◌>>=◌
  Sends-in_bounds o f e k = rw e (record { run = k.run })

  -- A line of the log, in front of the rest.
  Sends-info :
      {B : Type 0} (l : Logger.Logger) (text : Bytes) (f : Unit {0} → M O B)
      → Sends (f tt)
      → Sends (Logger.info l text >>= f)
  unfolding ◌>>=◌ Logger.info
  Sends-info l text f k = record {
    run = λ w.
        let c = k.run (Logger.info {O = O} l text w).1 in
        record {
          message = c.message;
          holds = c.holds;
          middle = c.middle;
          before = Adds-trans ((Steps.Quiet-info l text).adds w) c.before;
          after = c.after;
        };
  }

  Sends-continue :
      {A B : Type 0} (f : A → M O B) (p : Result A × World O) (t : List Event)
      → OneMessage Q t p.1.trace
      → ((a : A) → Quiet (f a))
      → OneMessage Q t (continue f p).1.trace
  Sends-continue f (ok a, w) t c k = record {
    message = c.message;
    holds = c.holds;
    middle = c.middle;
    before = c.before;
    after = Adds-trans c.after ((k a).adds w);
  }
  Sends-continue f (thrown e, w) t c k = c
  Sends-continue f (fault, w) t c k = c

  -- And then text only.
  Sends-then :
      {A B : Type 0} (m : M O A) (f : A → M O B)
      → Sends m
      → ((a : A) → Quiet (f a))
      → Sends (m >>= f)
  unfolding ◌>>=◌
  Sends-then m f s k = record { run = λ w. Sends-continue f (m w) w.trace (s.run w) k }

  call_send-Sends : (fd : ℕ) (b : Bytes) → Q (receive b) → Sends (call_send fd b)
  unfolding call_send
  call_send-Sends fd b q = record {
    run = λ w. record {
      message = b;
      holds = q;
      middle = w.trace;
      before = Adds-refl w.trace;
      after = Adds-refl (w.trace ++ (sent b ∷ []));
    };
  }

  Sends-new_request :
      {A : Type 0} (id : Bytes) (code size : ℕ) (payload : Bytes) (f : Request → M O A)
      → length id ≡ 16
      → ((pad : ℕ) → Sends (f (made pad id code size payload)))
      → Sends (new_request id code size payload >>= f)
  unfolding new_request ◌>>=◌
  Sends-new_request id code size payload f h16 k = record {
    run = λ w.
        rw (read_at_fits 0 16 id (omega arith), take_all id 16 h16) ((k (O.padding w.os)).run w);
  }

  module _ (memory : (n : ℕ) (s : O.State) → length (O.garbage n s) ≡ n) (h : Handler) where
    send_request-Sends :
        (r : Request)
        → IsRequest r
        → r.payload_size < 2 ^ 32
        → r.payload_size ≤ length r.payload
        → Q (as_received r)
        → Sends (send_request h r)
    unfolding send_request
    send_request-Sends r is fits enough q =
        Sends-gets (λ w. O.garbage (header_size + r.payload_size) w.os) _
          λ w.
            let (b, built, seen) =
              receive-serialise r (O.garbage (header_size + r.payload_size) w.os) is fits enough
                (memory (header_size + r.payload_size) w.os) in
            Sends-in_bounds (serialise r _) _ built (
              Sends-then (call_send h.socket b) _ (call_send-Sends h.socket b (rw seen q))
                λ done. search (quiet_rules, Steps.Quiet-error))

    send_crc_status_request-Sends :
        (id : Bytes) (code : ℕ)
        → length id ≡ 16
        → code < 2 ^ 16
        → ((m : Received) → m.code ≡ code → m.client_id ≡ id → Q m)
        → Sends (send_crc_status_request h id code)
    unfolding send_crc_status_request
    send_crc_status_request-Sends id code h16 fits q =
        Sends-gets (λ w. O.garbage (length h.file_path + 1) w.os) _
          λ w.
            let (payload, built, size) =
              status_payload_lem h.file_path (O.garbage (length h.file_path + 1) w.os)
                (memory (length h.file_path + 1) w.os) in
            Sends-in_bounds (status_payload h.file_path _) _ built (
              Sends-new_request id code (length h.file_path + 1) payload _ h16 λ pad.
                Sends-then (send_request h (made pad id code (length h.file_path + 1) payload)) _
                  (send_request-Sends (made pad id code (length h.file_path + 1) payload)
                    (record { id_size = h16; code_fits = fits }) (omega arith) (omega (arith, size))
                    (q _ refl refl))
                  λ _. search (quiet_rules, Steps.Quiet-get_response))

    accept_upload-Sends :
        (id : Bytes)
        → length id ≡ 16
        → ((m : Received) → m.code ≡ 1029 → m.client_id ≡ id → Q m)
        → Sends (accept_upload h id)
    unfolding accept_upload
    accept_upload-Sends id h16 q =
        Sends-info logger (codes "CRC Match, Responding with CRC Correct status to server") _ (
          Sends-then (send_crc_status_request h id crc_correct) _
            (send_crc_status_request-Sends id crc_correct h16 (omega arith) q)
            λ accepted. search (quiet_rules, Steps.Quiet-info, Steps.Quiet-server_error))

-- A status request for this client, with the word that the checksums agree.
abbrev pub Confirms : Bytes → Received → Type 0
Confirms id m = (m.code ≡ 1029) × (m.client_id ≡ id)

-- A file that cannot be opened any more has the checksum 0 for the client. Where the server reports
-- 0, the client says on the error stream that it cannot open the file, and all the same sends the
-- server one message, with the client's id and the code 1029: that the checksum is correct. Behind the
-- line on the error stream there is else only text. This supposes that memory which is allocated has
-- the size that was asked for, and an id of sixteen bytes.
pub compare_crc_unreadable :
    {O : Os} (memory : (n : ℕ) (s : O.State) → length (O.garbage n s) ≡ n) (h : Handler)
    (id : Bytes) (r : Response) (w : World O)
    → length id ≡ 16
    → O.read_file h.file_path w.os ≡ none
    → received_crc r.payload ≡ some 0
    → OneMessage
        (Confirms id)
        (w.trace
          ++ (printed cerr (codes "Cannot open input file " ++ (h.file_path ++ (newline ∷ [])))
              ∷ []))
        (compare_crc h id r w).1.trace
unfolding compare_crc ◌>>=◌
compare_crc_unreadable {O} memory h id r w h16 closed zero_reported =
    rw (zero_reported, read_crc_closed h.file_path w closed)
      ((accept_upload-Sends (Confirms id) memory h id h16 (λ m code owner. (code, owner))).run _)
