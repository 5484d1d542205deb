-- ===== src/Protocol/Defined.antt =====
-- Statements that make no access outside of a buffer, and so do not end in `fault`.
pub mod Steps
pub mod Requests
pub mod Upload
pub mod Rounds
pub mod Flow
pub mod Client
use defensive_systems_open_u.Prelude.{
  ◌≡◌, Bool, true, false, Option, none, some, Bytes, if◌then◌else◌,
}
use defensive_systems_open_u.Runtime.Os.{Os}
use defensive_systems_open_u.Runtime.Exec.{
  Any, Where, Where-Any, Kind, Result, ok, thrown, fault, pure, throw, gets, in_bounds, continue,
  ◌>>=◌,
}
use defensive_systems_open_u.Runtime.World.{World, M, Stream, print}

-- The result is a value with `Q`, or an exception.
abbrev pub Sure : {A : Type 0} → (A → Type 0) → Result A → Type 0
Sure Q (ok a) = Q a
Sure Q (thrown e) = Unit
Sure Q fault = ⊥

module _ {O : Os} where
  pub record Defined {A : Type 0} (m : M O A) (Q : A → Type 0) : Type 0 where
    pub run : (w : World O) → Sure Q (m w).0

  pub Defined-pure : {A : Type 0} (a : A) (Q : A → Type 0) → Q a → Defined (pure a) Q
  Defined-pure a Q q = record { run = λ w. q }

  pub Defined-gets :
      {A : Type 0} (f : World O → A) (Q : A → Type 0)
      → ((w : World O) → Q (f w))
      → Defined (gets f) Q
  Defined-gets f Q q = record { run = λ w. q w }

  Defined-continue :
      {A B : Type 0} (f : A → M O B) (Q : A → Type 0) (R : B → Type 0) (r : Result A) (w : World O)
      → ((a : A) → Q a → Defined (f a) R)
      → Sure Q r
      → Sure R (continue f (r, w)).0
  Defined-continue f Q R (ok a) w k q = (k a q).run w
  Defined-continue f Q R (thrown e) w k q = tt
  Defined-continue f Q R fault w k q = q

  pub Defined-bind :
      {A B : Type 0} (m : M O A) (f : A → M O B) (Q : A → Type 0) (R : B → Type 0)
      → Defined m Q
      → ((a : A) → Q a → Defined (f a) R)
      → Defined (m >>= f) R
  unfolding ◌>>=◌
  Defined-bind m f Q R hm hf = record {
    run = λ w. let (r, w') = m w in Defined-continue f Q R r w' hf (hm.run w);
  }

  pub Defined-in_bounds :
      {A B : Type 0} (o : Option A) (f : A → M O B) (R : B → Type 0) {a : A}
      → o ≡ some a
      → Defined (f a) R
      → Defined (in_bounds o >>= f) R
  unfolding ◌>>=◌
  Defined-in_bounds o f R e h = rw e (record { run = h.run })

  pub Defined-if :
      {A : Type 0} (b : Bool) (m n : M O A) (R : A → Type 0)
      → Defined m R
      → Defined n R
      → Defined (if b then m else n) R
  Defined-if true m n R hm hn = hm
  Defined-if false m n R hm hn = hn

  -- A statement of whose result nothing need be known.
  pub record Safe {A : Type 0} (m : M O A) : Type 0 where
    pub safe : Defined m Any

  pub Safe-pure : {A : Type 0} (a : A) → Safe (pure a)
  Safe-pure a = record { safe = Defined-pure a Any tt }

  pub Safe-throw : {A : Type 0} (k : Kind) (text : Bytes) → Safe {A = A} (throw k text)
  Safe-throw k text = record { safe = record { run = λ w. tt } }

  pub Safe-gets : {A : Type 0} (f : World O → A) → Safe (gets f)
  Safe-gets f = record { safe = Defined-gets f Any (λ w. tt) }

  pub Safe-print : (stream : Stream) (text : Bytes) → Safe (print stream text)
  Safe-print stream text = record { safe = record { run = λ w. tt } }

  pub Safe-if : {A : Type 0} (b : Bool) (m n : M O A) → Safe m → Safe n → Safe (if b then m else n)
  Safe-if b m n hm hn = record { safe = Defined-if b m n Any hm.safe hn.safe }

  pub Safe-bind :
      {A B : Type 0} (m : M O A) (f : A → M O B) → Safe m → ((a : A) → Safe (f a)) → Safe (m >>= f)
  Safe-bind m f hm hf = record { safe = Defined-bind m f Any Any hm.safe (λ a q. (hf a).safe) }

  -- A safe statement, in front of the rest.
  pub Defined-after :
      {A B : Type 0} (m : M O A) (f : A → M O B) (R : B → Type 0)
      → Safe m
      → ((a : A) → Defined (f a) R)
      → Defined (m >>= f) R
  Defined-after m f R hm hf = Defined-bind m f Any R hm.safe (λ a q. hf a)

pub ruleset safe_rules = (Safe-pure, Safe-throw, Safe-gets, Safe-print, Safe-if, Safe-bind)
