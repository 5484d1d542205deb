-- ===== src/Protocol/Success/Rules.antt =====
-- Rules for statements that return: from a state of the system, to a result and a state.
use defensive_systems_open_u.Prelude.{◌≡◌, refl, ap, ◌∙◌, Option, some, List, Bytes}
use defensive_systems_open_u.Logger
use defensive_systems_open_u.Logger.{Logger, Level}
use defensive_systems_open_u.Runtime.Os.{Os}
use defensive_systems_open_u.Runtime.Exec.{ok, pure, gets, in_bounds, continue, ◌>>=◌}
use defensive_systems_open_u.Runtime.World.{M, Event}

module _ {O : Os} where
  -- In the state `s`, whatever has been seen before, the action returns, with no exception and
  -- nothing undefined, and its result and its last state satisfy `Q`.
  pub record Runs {A : Type 0} (m : M O A) (s : O.State) (Q : A → O.State → Type 0) : Type 0 where
    pub run :
        (t : List Event)
        → (a : A) × (s' : O.State) × (t' : List Event) × (m (record { os = s; trace = t })
            ≡ (ok a, record { os = s'; trace = t' }))
          × Q a s'

  pub Runs-pure :
      {A : Type 0} (a : A) (s : O.State) (Q : A → O.State → Type 0) → Q a s → Runs (pure a) s Q
  Runs-pure a s Q q = record { run = λ t. (a, s, t, refl, q) }

  pub Runs-bind :
      {A B : Type 0} (m : M O A) (f : A → M O B) (s : O.State) (Q : A → O.State → Type 0)
      (R : B → O.State → Type 0)
      → Runs m s Q
      → ((a : A) (s' : O.State) → Q a s' → Runs (f a) s' R)
      → Runs (m >>= f) s R
  unfolding ◌>>=◌
  Runs-bind m f s Q R hm hf = record {
    run = λ t.
        let (a, s', t', e, q) = hm.run t in
        let (b, s'', t'', e', r) = (hf a s' q).run t' in (b, s'', t'', ap (continue f) e ∙ e', r);
  }

  -- A result and a state that are known.
  pub Runs-step :
      {A B : Type 0} (m : M O A) (f : A → M O B) (s : O.State) (R : B → O.State → Type 0) (a : A)
      (s' : O.State)
      → ((t : List Event)
          → (t' : List Event) × (m (record { os = s; trace = t })
              ≡ (ok a, record { os = s'; trace = t' })))
      → Runs (f a) s' R
      → Runs (m >>= f) s R
  unfolding ◌>>=◌
  Runs-step m f s R a s' e h = record {
    run = λ t.
        let (t', e') = e t in
        let (b, s'', t'', e'', r) = h.run t' in (b, s'', t'', ap (continue f) e' ∙ e'', r);
  }

  -- Reading from the state of the system.
  pub Runs-gets :
      {A B : Type 0} (g : O.State → A) (f : A → M O B) (s : O.State) (R : B → O.State → Type 0)
      → Runs (f (g s)) s R
      → Runs (gets (λ w. g w.os) >>= f) s R
  unfolding ◌>>=◌
  Runs-gets g f s R h = record { run = h.run }

  pub Runs-in_bounds :
      {A B : Type 0} (o : Option A) (f : A → M O B) (s : O.State) (R : B → O.State → Type 0) {a : A}
      → o ≡ some a
      → Runs (f a) s R
      → Runs (in_bounds o >>= f) s R
  unfolding ◌>>=◌
  Runs-in_bounds o f s R e h = rw e (record { run = h.run })

  -- The action returns and leaves the system as it is.
  pub record Says (m : M O (Unit {0})) : Type 0 where
    pub says :
        (s : O.State) (t : List Event)
        → (t' : List Event) × (m (record { os = s; trace = t })
            ≡ (ok tt, record { os = s; trace = t' }))

  pub Says-info : (l : Logger) (text : Bytes) → Says (Logger.info l text)
  unfolding Logger.info ◌>>=◌
  Says-info l text = record { says = λ s t. (_, refl) }

  pub Says-error : (l : Logger) (text : Bytes) → Says (Logger.error l text)
  unfolding Logger.error ◌>>=◌
  Says-error l text = record { says = λ s t. (_, refl) }

  pub Says-server_error : (l : Logger) (text : Bytes) → Says (Logger.server_error l text)
  unfolding Logger.server_error ◌>>=◌
  Says-server_error l text = record { says = λ s t. (_, refl) }

  -- A line of the log, in front of the rest.
  pub Runs-says :
      {B : Type 0} (m : M O (Unit {0})) (f : Unit {0} → M O B) (s : O.State)
      (R : B → O.State → Type 0)
      → Says m
      → Runs (f tt) s R
      → Runs (m >>= f) s R
  Runs-says m f s R h k = Runs-step m f s R tt s (h.says s) k

  pub Runs-weaken :
      {A : Type 0} (m : M O A) (s : O.State) (Q R : A → O.State → Type 0)
      → Runs m s Q
      → ((a : A) (s' : O.State) → Q a s' → R a s')
      → Runs m s R
  Runs-weaken m s Q R h k = record {
    run = λ t. let (a, s', t', e, q) = h.run t in (a, s', t', e, k a s' q);
  }
