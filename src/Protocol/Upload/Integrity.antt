-- ===== src/Protocol/Upload/Integrity.antt =====
-- ProtocolHandler.cpp, `handleRetrySendFile`: the comparison of the two checksums.
use mathlib.Core.Option.{none-ne-some}
use defensive_systems_open_u.Prelude.{
  ℕ, ◌≡◌, refl, sym, ap, ◌∙◌, arith, Bool, true, Option, none, some, Bytes, ◌==◌, if◌then◌else◌,
  Bool-cases, inl, inr, ==_iff,
}
use defensive_systems_open_u.Checksum.File.{read_crc}
use defensive_systems_open_u.Protocol.Connection.{Handler}
use defensive_systems_open_u.Protocol.Message.{Response}
use defensive_systems_open_u.Protocol.Upload.{
  received_crc, accept_upload, refuse_upload, compare_crc,
}
use defensive_systems_open_u.Runtime.Os.{Os}
use defensive_systems_open_u.Runtime.Exec.{
  Exec, Result, ok, thrown, fault, pure, in_bounds, continue, ◌>>=◌,
}
use defensive_systems_open_u.Runtime.World.{World}

module _ {S A B : Type 0} where
  -- Inversion of a statement that returns.
  continue-ok :
      (f : A → Exec S B) (r : Result A) (s : S) {b : B}
      → (continue f (r, s)).0 ≡ ok b
      → (a : A) × (r ≡ ok a) × ((f a s).0 ≡ ok b)
  continue-ok f (ok a) s h = (a, refl, h)
  continue-ok f (thrown e) s h = cc
  continue-ok f fault s h = cc

  pub >>=-ok :
      (m : Exec S A) (f : A → Exec S B) (s : S) {b : B}
      → ((m >>= f) s).0 ≡ ok b
      → (a : A) × ((m s).0 ≡ ok a) × ((f a (m s).1).0 ≡ ok b)
  unfolding ◌>>=◌
  >>=-ok m f s h = let (r, s') = m s in continue-ok f r s' h

module _ {S A B : Type 0} where
  pub in_bounds-ok :
      (o : Option A) (f : A → Exec S B) (s : S) {b : B}
      → ((in_bounds o >>= f) s).0 ≡ ok b
      → (a : A) × (o ≡ some a) × ((f a s).0 ≡ ok b)
  unfolding ◌>>=◌
  in_bounds-ok none f s h = cc
  in_bounds-ok (some a) f s h = (a, refl, h)

  -- Two statements whose results are dropped, in front of a constant.
  pub constant-ok :
      {C : Type 0} (m : Exec S A) (n : Exec S B) (c : C) (s : S) {x : C}
      → ((m >>= λ _. n >>= λ _. pure c) s).0 ≡ ok x
      → x ≡ c
  constant-ok m n c s h =
      let (_, _, k) = >>=-ok m (λ _. n >>= λ _. pure c) s h in
      let (_, _, e) = >>=-ok n (λ _. pure c) (m s).1 k in ground (arith, e)

module _ {O : Os} (h : Handler) (id : Bytes) where
  refuse_upload-ok : (w : World O) {x : Option Bool} → (refuse_upload h id w).0 ≡ ok x → x ≡ none
  unfolding refuse_upload
  refuse_upload-ok w e = constant-ok _ _ none w e

  agreed :
      (c k : ℕ) (w : World O)
      → ((if c == k then accept_upload h id else refuse_upload h id) w).0 ≡ ok (some true)
      → c ≡ k
  agreed c k w e = elim (Bool-cases (c == k)) [
    | inl same ↦ (==_iff c k).0 same
    | inr other ↦ absurd (none-ne-some true (sym (refuse_upload-ok w (rw other at e))))
  ]

  compared :
      (c : ℕ) (w : World O)
      → ((read_crc h.file_path >>= λ k. if c == k then accept_upload h id else refuse_upload h id)
          w).0
        ≡ ok (some true)
      → (read_crc h.file_path w).0 ≡ ok c
  compared c w e =
      let (k, found, rest) = >>=-ok (read_crc h.file_path) _ w e in
      found ∙ ap ok (sym (agreed c k _ rest))

  -- The inversion of the comparison.
  pub compare_crc-true :
      (r : Response) (w : World O)
      → (compare_crc h id r w).0 ≡ ok (some true)
      → (c : ℕ) × (received_crc r.payload ≡ some c) × ((read_crc h.file_path w).0 ≡ ok c)
  unfolding compare_crc
  compare_crc-true r w e =
      let (c, found, rest) = in_bounds-ok (received_crc r.payload) _ w e in
      (c, found, compared c w rest)
