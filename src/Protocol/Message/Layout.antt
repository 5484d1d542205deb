-- ===== src/Protocol/Message/Layout.antt =====
-- ProtocolHandler.cpp, `sendRequest`: the buffer of a request and where its fields stand.
use mathlib.Core.List.{append_assoc, append-nil}
use defensive_systems_open_u.Prelude.{
  ℕ, ◌+◌, ◌^◌, ◌≤◌, ◌<◌, ◌≡◌, sym, ap, ◌∙◌, arith, some, [], ◌∷◌, ◌++◌, length, length-append,
  length-take, length-drop, take, drop, Bytes,
}
use defensive_systems_open_u.Buffer.{write_at, read_at, little, little_value}
use defensive_systems_open_u.Buffer.Laws.{
  >>=-eq-some, drop-append, take-append, write_at-eq-some, write_at_fits, write_at_middle,
  read_at_fits,
}
use defensive_systems_open_u.Protocol.Message.{Request, header, header_size, serialise}

-- What the code makes sure of before it sends a request.
pub record IsRequest (r : Request) : Type 0 where
  pub id_size : length r.client_id ≡ 16
  pub code_fits : r.code < 2 ^ 16

length-header : (r : Request) → length r.client_id ≡ 16 → length (header r) ≡ 24
unfolding header
length-header r h = omega (
  arith,
  length-append {0} r.client_id
      (r.version ∷ r.padding ∷ (little 2 r.code ++ little 4 r.payload_size)),
)

-- A buffer that was built begins with the header, whatever the memory held.
pub serialise-header :
    (r : Request) (heap : Bytes) {b : Bytes}
    → length r.client_id ≡ 16
    → serialise r heap ≡ some b
    → (rest : Bytes) × (b ≡ header r ++ rest)
unfolding serialise
serialise-header r heap {b} h e =
    let (x, e1, k1) = >>=-eq-some (write_at 0 (header r) heap) _ e in
    let (payload, e2, k2) = >>=-eq-some (read_at 0 r.payload_size r.payload) _ k1 in
    let at_start = (write_at-eq-some 0 (header r) heap e1).1 in
    let whole = (write_at-eq-some header_size payload x k2).1 in
    (
      _,
      whole
          ∙ ap (λ (t : Bytes). t ++ (payload ++ drop (header_size + length payload) x))
              (ap (take header_size) at_start
                ∙ take-append (header r) _ header_size (length-header r h)),
    )

-- The fields of a request as its receiver finds them, at the offsets of the `struct`.
pub record Received : Type 0 where
  pub client_id : Bytes
  pub version : Bytes
  pub code : ℕ
  pub payload_size : ℕ
  pub payload : Bytes

unfoldable pub receive : Bytes → Received
receive b = record {
  client_id = take 16 b;
  version = take 1 (drop 16 b);
  code = little_value (take 2 (drop 18 b));
  payload_size = little_value (take 4 (drop 20 b));
  payload = drop 24 b;
}

-- What stands behind the client id, from the offset `k` on.
drop-header :
    (r : Request) (rest : Bytes) (k : ℕ)
    → length r.client_id ≡ 16
    → drop (16 + k) (header r ++ rest)
      ≡ drop k ((r.version ∷ r.padding ∷ (little 2 r.code ++ little 4 r.payload_size)) ++ rest)
unfolding header
drop-header r rest k h =
    ap (drop (16 + k)) (append_assoc r.client_id _ rest) ∙ drop-append r.client_id _ 16 k h

little_value-little2 : (n : ℕ) → n < 2 ^ 16 → little_value (little 2 n) ≡ n
little_value-little2 n h = omega arith

little_value-little4 : (n : ℕ) → n < 2 ^ 32 → little_value (little 4 n) ≡ n
little_value-little4 n h = omega arith

pub header_code :
    (r : Request) (rest : Bytes)
    → IsRequest r
    → little_value (take 2 (drop 18 (header r ++ rest))) ≡ r.code
header_code r rest h =
    ap (λ (t : Bytes). little_value (take 2 t)) (drop-header r rest 2 h.id_size)
    ∙ little_value-little2 r.code h.code_fits

header_id :
    (r : Request) (rest : Bytes)
    → length r.client_id ≡ 16
    → take 16 (header r ++ rest) ≡ r.client_id
unfolding header
header_id r rest h = ap (take 16) (append_assoc r.client_id _ rest) ∙ take-append r.client_id _ 16 h

-- The copy of the payload behind the header, in a buffer that has just room for it.
write-body :
    (r : Request) (tail body : Bytes)
    → length r.client_id ≡ 16
    → length tail ≡ length body
    → write_at header_size body (header r ++ tail) ≡ some (header r ++ body)
write-body r tail body h e =
    ap (λ (t : Bytes). write_at header_size body (header r ++ t)) (sym (append-nil tail))
    ∙ write_at_middle header_size (header r) tail [] body (length-header r h) e
    ∙ ap (λ (t : Bytes). some (header r ++ t)) (append-nil body)

pub serialise_lem :
    (r : Request) (heap : Bytes)
    → length r.client_id ≡ 16
    → r.payload_size ≤ length r.payload
    → length heap ≡ header_size + r.payload_size
    → serialise r heap ≡ some (header r ++ take r.payload_size r.payload)
unfolding serialise
serialise_lem r heap h enough room =
    rw
      (
        write_at_fits 0 (header r) heap (omega (arith, length-header r h)),
        read_at_fits 0 r.payload_size r.payload (omega arith),
      )
      (write-body r (drop (0 + length (header r)) heap) (take r.payload_size r.payload) h tail_size)
  where
    tail_size : length (drop (0 + length (header r)) heap) ≡ length (take r.payload_size r.payload)
    tail_size = omega (
      arith,
      length-header r h,
      length-drop {0} (0 + length (header r)) heap,
      length-take {0} r.payload_size r.payload,
    )

-- Every request with an id of sixteen bytes, fields that fit their types and at least as many
-- payload bytes as its size says is built, into memory of any content, and its receiver finds the
-- id, the version, the code, the size and exactly that many bytes of payload.
pub receive-serialise :
    (r : Request) (heap : Bytes)
    → IsRequest r
    → r.payload_size < 2 ^ 32
    → r.payload_size ≤ length r.payload
    → length heap ≡ header_size + r.payload_size
    → (b : Bytes) × (serialise r heap ≡ some b)
      × (receive b ≡ record {
        client_id = r.client_id;
        version = r.version ∷ [];
        code = r.code;
        payload_size = r.payload_size;
        payload = take r.payload_size r.payload;
      })
unfolding receive
receive-serialise r heap h size_fits enough room = (header r ++ body, built, fields)
  where
    body : Bytes
    body = take r.payload_size r.payload

    built : serialise r heap ≡ some (header r ++ body)
    built = serialise_lem r heap h.id_size enough room

    fields : receive (header r ++ body) ≡ record {
      client_id = r.client_id;
      version = r.version ∷ [];
      code = r.code;
      payload_size = r.payload_size;
      payload = body;
    }
    fields = λ i. record {
      client_id = header_id r body h.id_size i;
      version = ap (take 1) (drop-header r body 0 h.id_size) i;
      code = header_code r body h i;
      payload_size =
          (ap (λ (t : Bytes). little_value (take 4 t)) (drop-header r body 4 h.id_size)
              ∙ little_value-little4 r.payload_size size_fits)
            i;
      payload = drop-header r body 8 h.id_size i;
    }
