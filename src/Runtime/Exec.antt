-- ===== src/Runtime/Exec.antt =====
-- Statements that change a state and may throw, or run into what C++ leaves undefined. What was
-- done before an exception stays done, so the state comes back on every outcome.
use defensive_systems_open_u.Prelude.{Bool, true, false, Bytes, Option, none, some}

-- The classes of exceptions that are thrown. `system_error` derives from `runtime_error`, the next
-- three from `logic_error`, and the library's from `std::exception`.
pub data Kind : Type 0 where
  runtime_error system_error invalid_argument out_of_range length_error library_error : Kind

-- What `catch (std::runtime_error &)` catches.
abbrev pub is_runtime_error : Kind → Bool
is_runtime_error runtime_error = true
is_runtime_error system_error = true
is_runtime_error _ = false

pub record Exception : Type 0 where
  pub kind : Kind
  pub what : Bytes

-- `fault` is undefined behaviour: an access outside of a buffer, or memcrc's `int` that overflows.
pub data Result {ℓ} (A : Type ℓ) : Type ℓ where
  ok : A → Result A
  thrown : Exception → Result A
  fault : Result A

-- What is known of a result, where there is one.
abbrev pub Where : {A : Type 0} → (A → Type 0) → Result A → Type 0
Where Q (ok a) = Q a
Where Q (thrown e) = Unit
Where Q fault = Unit

abbrev pub Any : {A : Type 0} → A → Type 0
Any a = Unit

pub Where-Any : {A : Type 0} (r : Result A) → Where Any r
Where-Any (ok a) = tt
Where-Any (thrown e) = tt
Where-Any fault = tt

abbrev pub Exec {ℓ} : Type ℓ → Type ℓ → Type ℓ
Exec S A = S → Result A × S

module _ {ℓ} {S A : Type ℓ} where
  abbrev pub pure : A → Exec S A
  pure a s = (ok a, s)

  abbrev pub throw : Kind → Bytes → Exec S A
  throw k text s = (thrown (record { kind = k; what = text }), s)

  abbrev pub gets : (S → A) → Exec S A
  gets f s = (ok (f s), s)

  -- An access that must be in bounds.
  abbrev pub in_bounds : Option A → Exec S A
  in_bounds none s = (fault, s)
  in_bounds (some a) s = (ok a, s)

module _ {ℓ} {S A B : Type ℓ} where
  abbrev pub continue : (A → Exec S B) → Result A × S → Result B × S
  continue f (ok a, s) = f a s
  continue f (thrown e, s) = (thrown e, s)
  continue f (fault, s) = (fault, s)

  infixl 5 ◌>>=◌ ◌>>◌
  unfoldable pub ◌>>=◌ : Exec S A → (A → Exec S B) → Exec S B
  ◌>>=◌ m f s = continue f (m s)

  abbrev pub ◌>>◌ : Exec S A → Exec S B → Exec S B
  m >> n = m >>= λ _. n
