-- ===== src/Protocol/Events/Rules.antt =====
-- Rules to follow what the statements of the client show to the outside.
use defensive_systems_open_u.Prelude.{
  ◌≡◌, refl, Bool, true, false, Option, none, some, if◌then◌else◌,
}
use defensive_systems_open_u.Protocol.Quiet.{IsPlain, Quiet}
use defensive_systems_open_u.Runtime.Os.{Os}
use defensive_systems_open_u.Runtime.Exec.{
  Any, Where, Where-Any, Result, ok, thrown, fault, pure, gets, in_bounds, continue, ◌>>=◌,
}
use defensive_systems_open_u.Runtime.Trace.{Adds, Adds-refl, Adds-trans, Adds-weaken}
use defensive_systems_open_u.Runtime.World.{World, M, Event}

module _ {O : Os} (P : Event → Type 0) where
  -- However it ends, the action adds events that satisfy `P`, and a result satisfies `Q`.
  pub record Makes {A : Type 0} (m : M O A) (Q : A → Type 0) : Type 0 where
    pub run : (w : World O) → Adds P w.trace (m w).1.trace × Where Q (m w).0

  pub Makes-pure : {A : Type 0} (a : A) (Q : A → Type 0) → Q a → Makes (pure a) Q
  Makes-pure a Q q = record { run = λ w. (Adds-refl w.trace, q) }

  pub Makes-gets :
      {A : Type 0} (f : World O → A) (Q : A → Type 0) → ((w : World O) → Q (f w)) → Makes (gets f) Q
  Makes-gets f Q q = record { run = λ w. (Adds-refl w.trace, q w) }

  Makes-continue :
      {A B : Type 0} (f : A → M O B) (Q : A → Type 0) (R : B → Type 0) (r : Result A) (w : World O)
      → ((a : A) → Q a → Makes (f a) R)
      → Where Q r
      → Adds P w.trace (continue f (r, w)).1.trace × Where R (continue f (r, w)).0
  Makes-continue f Q R (ok a) w k q = (k a q).run w
  Makes-continue f Q R (thrown e) w k q = (Adds-refl w.trace, tt)
  Makes-continue f Q R fault w k q = (Adds-refl w.trace, tt)

  pub Makes-bind :
      {A B : Type 0} (m : M O A) (f : A → M O B) (Q : A → Type 0) (R : B → Type 0)
      → Makes m Q
      → ((a : A) → Q a → Makes (f a) R)
      → Makes (m >>= f) R
  unfolding ◌>>=◌
  Makes-bind m f Q R hm hf = record {
    run = λ w.
        let (r, w') = m w in
        let (before, q) = hm.run w in
        let (after, post) = Makes-continue f Q R r w' hf q in (Adds-trans before after, post);
  }

  pub Makes-in_bounds :
      {A B : Type 0} (o : Option A) (f : A → M O B) (R : B → Type 0)
      → ((a : A) → o ≡ some a → Makes (f a) R)
      → Makes (in_bounds o >>= f) R
  unfolding ◌>>=◌
  Makes-in_bounds none f R h = record { run = λ w. (Adds-refl w.trace, tt) }
  Makes-in_bounds (some a) f R h = h a refl

  pub Makes-if :
      {A : Type 0} (b : Bool) (m n : M O A) (R : A → Type 0)
      → Makes m R
      → Makes n R
      → Makes (if b then m else n) R
  Makes-if true m n R hm hn = hm
  Makes-if false m n R hm hn = hn

  module _ (plain : (e : Event) → IsPlain e → P e) where
    pub Makes-Quiet : {A : Type 0} (m : M O A) → Quiet m → Makes m Any
    Makes-Quiet m hm = record { run = λ w. (Adds-weaken plain (hm.adds w), Where-Any (m w).0) }

    -- A quiet statement, in front of the rest.
    pub Makes-after :
        {A B : Type 0} (m : M O A) (f : A → M O B) (R : B → Type 0)
        → Quiet m
        → ((a : A) → Makes (f a) R)
        → Makes (m >>= f) R
    Makes-after m f R hm hf = Makes-bind m f Any R (Makes-Quiet m hm) (λ a q. hf a)

  -- A statement of whose result nothing need be known, in front of the rest.
  pub Makes-then :
      {A B : Type 0} (m : M O A) (f : A → M O B) (R : B → Type 0)
      → Makes m Any
      → ((a : A) → Makes (f a) R)
      → Makes (m >>= f) R
  Makes-then m f R hm hf = Makes-bind m f Any R hm (λ a q. hf a)
