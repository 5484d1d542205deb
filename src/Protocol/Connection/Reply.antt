-- ===== src/Protocol/Connection/Reply.antt =====
-- ProtocolHandler.cpp, `getResponse`: replies, complete or cut off.
use defensive_systems_open_u.Prelude.{
  ℕ, ◌+◌, ◌%◌, ◌^◌, ◌<◌, ◌≡◌, refl, ap, ◌∙◌, arith, true, false, Option, none, some, [], ◌∷◌, ◌++◌,
  length, Bytes, ==_iff,
}
use defensive_systems_open_u.Buffer.{big16, big32, big_value}
use defensive_systems_open_u.Logger
use defensive_systems_open_u.Protocol.Connection.{
  Handler, has_length, get_response, safe_receive, receive_payload, bytes_of,
}
use defensive_systems_open_u.Protocol.Message.{Response, parse_header, uninitialised}
use defensive_systems_open_u.Runtime.Os.{Os}
use defensive_systems_open_u.Runtime.Exec.{ok, ◌>>=◌}
use defensive_systems_open_u.Runtime.World.{World}

has_length_lem : (b : Bytes) (n : ℕ) → length b ≡ n → has_length n (some b) ≡ true
unfolding has_length
has_length_lem b n h = (==_iff (length b) n).1 h

-- The header of a reply, as the server writes it.
abbrev pub reply_header : ℕ → ℕ → ℕ → Bytes
reply_header version code size = version ∷ (big16 code ++ big32 size)

parse_header_lem :
    (version code size : ℕ) (r : Response)
    → code < 2 ^ 16
    → size < 2 ^ 32
    → parse_header (reply_header version code size) r
      ≡ record r { version = (version + 48) % 256; code = code; payload_size = size }
unfolding parse_header
parse_header_lem version code size r hc hs =
    λ i. record r { version = version_value i; code = code_value i; payload_size = size_value i }
  where
    version_value : (big_value (version ∷ []) + 48) % 256 ≡ (version + 48) % 256
    version_value = omega arith

    code_value : big_value (big16 code) ≡ code
    code_value = omega arith

    size_value : big_value (big32 size) ≡ size
    size_value = omega arith

module _ {O : Os} (w : World O) where
  safe_receive_lem :
      (fd n : ℕ) {b : Bytes} {s : O.State}
      → O.recv fd n w.os ≡ (some b, s)
      → safe_receive fd n w ≡ (ok (some b), record w { os = s })
  unfolding safe_receive ◌>>=◌
  safe_receive_lem fd n e = rw e refl

module _ {O : Os} (h : Handler) (w : World O) where
  receive_payload_lem :
      (r : Response) (payload : Bytes) {s : O.State}
      → length payload ≡ r.payload_size
      → O.recv h.socket r.payload_size w.os ≡ (some payload, s)
      → receive_payload h r w ≡ (ok (record r { payload = payload }), record w { os = s })
  unfolding receive_payload ◌>>=◌ bytes_of
  receive_payload_lem r payload e received =
      rw (safe_receive_lem w h.socket r.payload_size received)
        (rw (has_length_lem payload r.payload_size e) refl)

module _ {O : Os} (h : Handler) (w : World O) where
  -- A reply that arrives in one header of seven bytes, with a code and a size that fit their fields,
  -- and one payload of that size is understood: the version's digit, the code, the size and the
  -- payload are the server's, nothing is printed and nothing else changes.
  pub get_response-reply :
      (version code : ℕ) (payload : Bytes) (s s' : O.State)
      → code < 2 ^ 16
      → length payload < 2 ^ 32
      → O.recv h.socket 7 w.os ≡ (some (reply_header version code (length payload)), s)
      → O.recv h.socket (length payload) s ≡ (some payload, s')
      → get_response h w ≡ (
        ok (record {
          version = (version + 48) % 256;
          code = code;
          payload_size = length payload;
          payload = payload;
        }),
        record w { os = s' },
      )
  unfolding get_response ◌>>=◌ bytes_of
  get_response-reply version code payload s s' hc hs first second =
      rw (safe_receive_lem w h.socket 7 first) (
        ap (λ (r : Response). receive_payload h r (record w { os = s }))
          (parse_header_lem version code (length payload) (uninitialised (O.garbage 8 w.os)) hc hs)
        ∙ receive_payload_lem h (record w { os = s }) _ payload refl second)

  receive_payload_short :
      (r : Response) (received : Option Bytes) (s s' : O.State)
      → O.recv h.socket r.payload_size s ≡ (received, s')
      → has_length r.payload_size received ≡ false
      → (receive_payload h r (record w { os = s })).0 ≡ ok r
  unfolding receive_payload ◌>>=◌ safe_receive Logger.server_error
  receive_payload_short r none s s' e short = rw e refl
  receive_payload_short r (some b) s s' e short = rw e (rw short refl)

  -- A payload that does not arrive whole in one call, or not at all, behind a whole header: the
  -- response has the server's code and size, and an empty payload.
  pub get_response_partial :
      (version code size : ℕ) (received : Option Bytes) (s s' : O.State)
      → code < 2 ^ 16
      → size < 2 ^ 32
      → O.recv h.socket 7 w.os ≡ (some (reply_header version code size), s)
      → O.recv h.socket size s ≡ (received, s')
      → has_length size received ≡ false
      → (get_response h w).0
        ≡ ok (record {
          version = (version + 48) % 256;
          code = code;
          payload_size = size;
          payload = [];
        })
  unfolding get_response ◌>>=◌ bytes_of
  get_response_partial version code size received s s' hc hs first second short =
      rw (safe_receive_lem w h.socket 7 first) (
        ap (λ (r : Response). (receive_payload h r (record w { os = s })).0)
          (parse_header_lem version code size (uninitialised (O.garbage 8 w.os)) hc hs)
        ∙ receive_payload_short _ received s s' second short)
