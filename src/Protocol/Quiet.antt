-- ===== src/Protocol/Quiet.antt =====
-- The operations of the client that neither connect nor send nor write a file: all that is seen of
-- them is text on the standard streams.
pub mod Steps
use defensive_systems_open_u.Prelude.{
  ◌≡◌, ◌⊎◌, Bool, true, false, Option, none, some, Bytes, if◌then◌else◌,
}
use defensive_systems_open_u.FileHandler.{me_info_path, private_key_path}
use defensive_systems_open_u.Runtime.Os.{Os}
use defensive_systems_open_u.Runtime.Exec.{
  Kind, Result, ok, thrown, fault, pure, throw, gets, in_bounds, continue, ◌>>=◌,
}
use defensive_systems_open_u.Runtime.Trace.{Adds, Adds-refl, Adds-one, Adds-trans}
use defensive_systems_open_u.Runtime.World.{
  World, M, Event, Stream, opened, sent, printed, wrote, print,
}

abbrev pub IsPlain : Event → Type 0
IsPlain (opened port address) = ⊥
IsPlain (sent b) = ⊥
IsPlain (printed stream text) = Unit {0}
IsPlain (wrote path text) = ⊥

module _ {O : Os} where
  pub record Quiet {A : Type 0} (m : M O A) : Type 0 where
    pub adds : (w : World O) → Adds IsPlain w.trace (m w).1.trace

  pub Quiet-pure : {A : Type 0} (a : A) → Quiet (pure a)
  Quiet-pure a = record { adds = λ w. Adds-refl w.trace }

  pub Quiet-throw : {A : Type 0} (k : Kind) (text : Bytes) → Quiet {A = A} (throw k text)
  Quiet-throw k text = record { adds = λ w. Adds-refl w.trace }

  pub Quiet-gets : {A : Type 0} (f : World O → A) → Quiet (gets f)
  Quiet-gets f = record { adds = λ w. Adds-refl w.trace }

  pub Quiet-in_bounds : {A : Type 0} (o : Option A) → Quiet (in_bounds o)
  Quiet-in_bounds none = record { adds = λ w. Adds-refl w.trace }
  Quiet-in_bounds (some a) = record { adds = λ w. Adds-refl w.trace }

  pub Quiet-print : (stream : Stream) (text : Bytes) → Quiet (print stream text)
  Quiet-print stream text = record { adds = λ w. Adds-one w.trace (printed stream text) tt }

  pub Quiet-if :
      {A : Type 0} (b : Bool) (m n : M O A) → Quiet m → Quiet n → Quiet (if b then m else n)
  Quiet-if true m n hm hn = hm
  Quiet-if false m n hm hn = hn

  Quiet-continue :
      {A B : Type 0} (f : A → M O B) (r : Result A) (w : World O)
      → ((a : A) → Quiet (f a))
      → Adds IsPlain w.trace (continue f (r, w)).1.trace
  Quiet-continue f (ok a) w k = (k a).adds w
  Quiet-continue f (thrown e) w k = Adds-refl w.trace
  Quiet-continue f fault w k = Adds-refl w.trace

  pub Quiet-bind :
      {A B : Type 0} (m : M O A) (f : A → M O B)
      → Quiet m
      → ((a : A) → Quiet (f a))
      → Quiet (m >>= f)
  unfolding ◌>>=◌
  Quiet-bind m f hm hf = record {
    adds = λ w. let (r, w') = m w in Adds-trans (hm.adds w) (Quiet-continue f r w' hf);
  }

pub ruleset quiet_rules =
    (Quiet-pure, Quiet-throw, Quiet-gets, Quiet-in_bounds, Quiet-print, Quiet-if, Quiet-bind)
