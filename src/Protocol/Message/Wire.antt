-- ===== src/Protocol/Message/Wire.antt =====
-- ProtocolHandler.cpp, `sendRequest`: what a receiver can tell apart. The byte of padding and the
-- payload behind `payloadSize` do not reach it.
use mathlib.Core.Equiv.{IsEquiv, iso_to_equiv}
use mathlib.Core.HLevel.{Σ_prop_path}
use mathlib.Core.Quot
use mathlib.Core.Quot.{Quot, Quot-set}
use native.Mathlib.Bridge.{le_prop}
use defensive_systems_open_u.Prelude.{
  ℕ, ◌+◌, ◌^◌, ◌≤◌, ◌<◌, ◌≡◌, refl, sym, ap, ◌∙◌, arith, Option, none, some, [], ◌∷◌, length,
  length-take, take, Bytes,
}
use defensive_systems_open_u.Buffer.{little_value}
use defensive_systems_open_u.Buffer.Laws.{take_all}
use defensive_systems_open_u.Protocol.Message.{Request, header_size, serialise}
use defensive_systems_open_u.Protocol.Message.Layout.{
  IsRequest, Received, receive, receive-serialise,
}

-- A request that can be sent: fields that fit their types, and as many bytes as its size says.
pub record Sendable : Type 0 where
  pub request : Request
  pub is : IsRequest request
  pub size_fits : request.payload_size < 2 ^ 32
  pub enough : request.payload_size ≤ length request.payload

-- All but the padding and the payload behind the size.
abbrev pub SameMessage : Sendable → Sendable → Type 0
SameMessage s t =
    (s.request.client_id ≡ t.request.client_id)
    × (s.request.version ≡ t.request.version)
    × (s.request.code ≡ t.request.code)
    × (s.request.payload_size ≡ t.request.payload_size)
    × (take s.request.payload_size s.request.payload
        ≡ take t.request.payload_size t.request.payload)

-- Requests up to what is not sent.
abbrev pub Message : Type 0
Message = Quot SameMessage

-- The messages that a receiver can find: the fields of a `struct Request`, and a whole payload.
abbrev pub IsArrived : Received → Type 0
IsArrived m =
    (length m.client_id ≡ 16)
    × (length m.version ≡ 1)
    × (m.code < 2 ^ 16)
    × (m.payload_size < 2 ^ 32)
    × (length m.payload ≡ m.payload_size)

abbrev pub Arrived : Type 0
Arrived = (m : Received) × IsArrived m

-- A buffer that was built.
abbrev built_or_empty : Option Bytes → Bytes
built_or_empty none = []
built_or_empty (some b) = b

abbrev seen : Request → Received
seen r = record {
  client_id = r.client_id;
  version = r.version ∷ [];
  code = r.code;
  payload_size = r.payload_size;
  payload = take r.payload_size r.payload;
}

Received-set : IsSet Received
Received-set = hlevel

IsArrived-prop : (m : Received) → IsProp (IsArrived m)
IsArrived-prop m = hlevel le_prop

pub Arrived-set : IsSet Arrived
Arrived-set = hlevel (IsArrived-prop, Received-set)

Arrived-ext : (a b : Arrived) → a.0 ≡ b.0 → a ≡ b
Arrived-ext a b = Σ_prop_path IsArrived-prop

one_byte : (v : Bytes) → length v ≡ 1 → little_value v ∷ [] ≡ v
one_byte [] h = absurd (omega arith)
one_byte (x ∷ []) h = ap (λ (n : ℕ). n ∷ []) (omega arith)
one_byte (x ∷ y ∷ v) h = absurd (omega arith)

module _ (memory : ℕ → Bytes) (sizes : (n : ℕ) → length (memory n) ≡ n) where
  -- What `sendRequest` sends, from the memory that it was given.
  unfoldable pub wire : Sendable → Bytes
  unfolding serialise
  wire s = let r = s.request in built_or_empty (serialise r (memory (header_size + r.payload_size)))

  receive-wire : (s : Sendable) → receive (wire s) ≡ seen s.request
  unfolding wire
  receive-wire s =
      let (b, built, fields) = receive-serialise s.request _ s.is s.size_fits s.enough (sizes _) in
      ap (λ o. receive (built_or_empty o)) built ∙ fields

  pub wire-IsArrived : (s : Sendable) → IsArrived (receive (wire s))
  wire-IsArrived s = rw (receive-wire s) (
    s.is.id_size,
    refl,
    s.is.code_fits,
    s.size_fits,
    omega (arith, length-take s.request.payload_size s.request.payload, s.enough),
  )

  -- What arrives of a request.
  abbrev pub arrive_one : Sendable → Arrived
  arrive_one s = (receive (wire s), wire-IsArrived s)

  pub arrive_one-SameMessage : (s t : Sendable) → SameMessage s t → arrive_one s ≡ arrive_one t
  arrive_one-SameMessage s t (id, version, code, size, payload) =
      Arrived-ext _ _ (receive-wire s ∙ same ∙ sym (receive-wire t))
    where
      same : seen s.request ≡ seen t.request
      same = λ i. record {
        client_id = id i;
        version = version i ∷ [];
        code = code i;
        payload_size = size i;
        payload = payload i;
      }

  -- What arrives of a message.
  abbrev pub arrive : Message → Arrived
  arrive = Quot.lift Arrived-set arrive_one arrive_one-SameMessage

  -- A request that arrives as this message.
  abbrev request_of : Arrived → Sendable
  request_of (m, h) = record {
    request = record {
      client_id = m.client_id;
      version = little_value m.version;
      padding = 0;
      code = m.code;
      payload_size = m.payload_size;
      payload = m.payload;
    };
    is = record { id_size = h.0; code_fits = h.2 };
    size_fits = h.3;
    enough = omega arith;
  }

  arrive_one-request_of : (a : Arrived) → arrive_one (request_of a) ≡ a
  arrive_one-request_of a = Arrived-ext _ _ (receive-wire (request_of a) ∙ back)
    where
      back : seen (request_of a).request ≡ a.0
      back = λ i. record {
        client_id = a.0.client_id;
        version = one_byte a.0.version a.1.1 i;
        code = a.0.code;
        payload_size = a.0.payload_size;
        payload = take_all a.0.payload a.0.payload_size a.1.4 i;
      }

  request_of-arrive_one : (s : Sendable) → SameMessage (request_of (arrive_one s)) s
  request_of-arrive_one s =
      let at_once = receive-wire s in
      let arrived = wire-IsArrived s in
      (
        ap (λ m. m.client_id) at_once,
        ap (λ m. little_value m.version) at_once ∙ omega arith,
        ap (λ m. m.code) at_once,
        ap (λ m. m.payload_size) at_once,
        take_all _ _ arrived.4 ∙ ap (λ m. m.payload) at_once,
      )

  -- Of the requests with an id of sixteen bytes, a code and a size that fit their types and at least
  -- as many bytes of payload as the size says, what `sendRequest` sends is, for its receiver, exactly
  -- a message, whatever the memory for the buffer held, if it has the size that was asked for: each
  -- message that a receiver can find arrives from one, and from only one, class of such requests that
  -- agree in the client id, the version, the code, the size and as many bytes of payload as the size
  -- says.
  pub arrive-IsEquiv : IsEquiv arrive
  arrive-IsEquiv =
      (iso_to_equiv (record {
        fun = arrive;
        inv = λ a. Quot.mk (request_of a);
        rinv = arrive_one-request_of;
        linv = Quot.ind (λ q. Quot-set _ _) λ s. Quot.sound (request_of-arrive_one s);
      })).1
