-- ===== src/Protocol/Flow/Identity.antt =====
-- ProtocolHandler.cpp, `handleConnectionRequest`: the bytes that are kept as the client's id.
use mathlib.Core.Option.{some-injective}
use defensive_systems_open_u.Prelude.{
  ℕ, ◌+◌, ◌≤◌, ◌≡◌, refl, sym, ap, ◌∙◌, arith, min, Bool-cases, leb, inl, inr, zero, suc, [], ◌∷◌,
  some, ◌++◌, length, length-take, take, drop, replicate, Bytes,
}
use defensive_systems_open_u.Buffer.{write_at}
use defensive_systems_open_u.Buffer.Laws.{write_at_fits, drop_all}
use defensive_systems_open_u.Constants.{name_field_size}
use defensive_systems_open_u.Protocol.Connection.{Handler, send_request, get_response}
use defensive_systems_open_u.Protocol.Flow.{handle_connection_request}
use defensive_systems_open_u.Protocol.Message.{Response}
use defensive_systems_open_u.Protocol.Payload.{name_field}
use defensive_systems_open_u.Protocol.Upload.{new_request}
use defensive_systems_open_u.Protocol.Upload.Integrity.{>>=-ok, in_bounds-ok}
use defensive_systems_open_u.Runtime.Os.{Os}
use defensive_systems_open_u.Runtime.Exec.{Result, ok}
use defensive_systems_open_u.Runtime.World.{World}

take-min : (n m : ℕ) (body : Bytes) → m ≡ min n (length body) → take m body ≡ take n body
take-min zero zero body e = refl
take-min zero (suc m) body e = absurd (omega arith)
take-min (suc n) zero [] e = refl
take-min (suc n) (suc m) [] e = refl
take-min (suc n) zero (x ∷ body) e = absurd (omega arith)
take-min (suc n) (suc m) (x ∷ body) e = ap (◌∷◌ x) (take-min n m body (omega arith))

-- The copy of at most sixteen bytes over sixteen bytes of memory.
pub write_at-id :
    (body memory : Bytes)
    → length memory ≡ 16
    → write_at 0 (take (min 16 (length body)) body) memory
      ≡ some (take 16 body ++ drop (length body) memory)
write_at-id body memory h =
    ap (λ (t : Bytes). write_at 0 t memory) (take-min 16 _ body refl)
    ∙ write_at_fits 0 (take 16 body) memory (omega (arith, size))
    ∙ ap (λ (t : Bytes). some (take 16 body ++ t)) rest
  where
    size : length (take 16 body) ≡ min 16 (length body)
    size = length-take 16 body

    same : length body ≤ 16 → 0 + length (take 16 body) ≡ length body
    same short = omega (arith, size)

    rest : drop (0 + length (take 16 body)) memory ≡ drop (length body) memory
    rest = elim (Bool-cases (leb (length body) 16)) [
      | inl short ↦ rw (same (ground (arith, short))) refl
      | inr long ↦
          drop_all memory _ (ground (arith, long, size))
          ∙ sym (drop_all memory (length body) (ground (arith, long)))
    ]

-- Whatever the server and the network do, where the request returns, the id that is kept and later
-- sent and saved is the first sixteen bytes of the payload; for a payload that is shorter, the rest
-- of the id is what the uninitialised array held.
pub handle_connection_request-id :
    {O : Os} (h : Handler) (memory : Bytes) (code : ℕ) (w : World O) {r : Response} {id : Bytes}
    → length memory ≡ 16
    → (handle_connection_request h memory code w).0 ≡ ok (r, id)
    → id ≡ take 16 r.payload ++ drop (length r.payload) memory
unfolding handle_connection_request
handle_connection_request-id h memory code w {r} {id} h16 e =
    let (payload, _, k1) = in_bounds-ok (name_field h.client_name) _ w e in
    let (request, _, k2) =
      >>=-ok (new_request (replicate 16 0) code name_field_size payload) _ w k1 in
    let (_, _, k3) = >>=-ok (send_request h request) _ _ k2 in
    let (got, _, k4) = >>=-ok (get_response h) _ _ k3 in
    let (stored, found, k5) =
      in_bounds-ok (write_at 0 (take (min 16 (length got.payload)) got.payload) memory) _ _ k4 in
    kept got found k5
  where
    kept :
        (got : Response) {stored : Bytes}
        → write_at 0 (take (min 16 (length got.payload)) got.payload) memory ≡ some stored
        → ◌≡◌ {A = Result (Response × Bytes)} (ok (got, stored)) (ok (r, id))
        → id ≡ take 16 r.payload ++ drop (length r.payload) memory
    kept got {stored} found e =
        let both : ◌≡◌ {A = Response × Bytes} (got, stored) (r, id) = cc in
        sym (ap (λ p. p.1) both)
        ∙ some-injective _ _ (sym found ∙ write_at-id got.payload memory h16)
        ∙ ap (λ (p : Response × Bytes). take 16 p.0.payload ++ drop (length p.0.payload) memory)
            both
