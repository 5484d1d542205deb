-- ===== src/Protocol/Order/Rules.antt =====
-- Rules to follow the phase of the protocol through the statements of the client.
use mathlib.Core.List.{append_assoc, append-nil}
use mathlib.Core.Option.{some-injective}
use defensive_systems_open_u.Prelude.{
  ◌≡◌, refl, sym, ap, ◌∙◌, Bool, true, false, Option, none, some, List, [], ◌∷◌, ◌++◌,
  if◌then◌else◌,
}
use defensive_systems_open_u.Protocol.Events.Rules.{Makes, Makes-Quiet}
use defensive_systems_open_u.Runtime.Exec.{Any, Result, ok, thrown, fault, pure, continue, ◌>>=◌}
use defensive_systems_open_u.Protocol.Quiet.{IsPlain, Quiet}
use defensive_systems_open_u.Protocol.Order.{Phase, on_event, phase_after, closed}
use defensive_systems_open_u.Runtime.Os.{Os}
use defensive_systems_open_u.Runtime.Trace.{Every}
use defensive_systems_open_u.Runtime.World.{World, M, Event, opened, sent, printed, wrote}

phase_after-nil : (o : Option Phase) → phase_after o [] ≡ o
phase_after-nil none = refl
phase_after-nil (some p) = refl

pub phase_after-snoc :
    (o : Option Phase) (t : List Event) (e : Event) {p q : Phase}
    → phase_after o t ≡ some p
    → on_event p e ≡ some q
    → phase_after o (t ++ (e ∷ [])) ≡ some q
phase_after-snoc none t e h k = cc
phase_after-snoc (some p) [] e h k =
    phase_after-nil (on_event p e) ∙ ap (λ x. on_event x e) (some-injective _ _ h) ∙ k
phase_after-snoc (some p) (d ∷ t) e h k = phase_after-snoc (on_event p d) t e h k

-- The events that leave the phase as it is.
abbrev pub IsSilent : Event → Type 0
IsSilent (opened port address) = ⊥
IsSilent (sent b) = ⊥
IsSilent (printed stream text) = Unit {0}
IsSilent (wrote path text) = Unit {0}

pub plain-IsSilent : (e : Event) → IsPlain e → IsSilent e
plain-IsSilent (opened port address) h = elim h [ ]
plain-IsSilent (sent b) h = elim h [ ]
plain-IsSilent (printed stream text) h = tt
plain-IsSilent (wrote path text) h = tt

on_event-silent : (p : Phase) (e : Event) → IsSilent e → on_event p e ≡ some p
on_event-silent p (opened port address) h = elim h [ ]
on_event-silent p (sent b) h = elim h [ ]
on_event-silent p (printed stream text) h = refl
on_event-silent p (wrote path text) h = refl

phase_after-silent :
    (o : Option Phase) (t es : List Event) {p : Phase}
    → Every IsSilent es
    → phase_after o t ≡ some p
    → phase_after o (t ++ es) ≡ some p
phase_after-silent o t [] h k = ap (phase_after o) (append-nil t) ∙ k
phase_after-silent o t (e ∷ es) {p} h k =
    ap (phase_after o) (sym (append_assoc t (e ∷ []) es))
    ∙ phase_after-silent o (t ++ (e ∷ [])) es h.1
        (phase_after-snoc o t e k (on_event-silent p e h.0))

-- What is known of the phase after a result; nothing where there is none.
abbrev pub Post : {A : Type 0} → (A → Phase → Type 0) → Result A → Phase → Type 0
Post Q (ok a) p = Q a p
Post Q (thrown e) p = Unit
Post Q fault p = Unit

module _ {O : Os} where
  -- The events so far are in order, and have led to this phase.
  pub record At (p : Phase) (w : World O) : Type 0 where
    pub reached : phase_after (some closed) w.trace ≡ some p

  -- From phase `p` the action keeps to the order, and where it returns `a`, its phase satisfies `Q a`.
  pub record From {A : Type 0} (p : Phase) (m : M O A) (Q : A → Phase → Type 0) : Type 0 where
    pub run : (w : World O) → At p w → (q : Phase) × At q (m w).1 × Post Q (m w).0 q

  -- A silent action leaves the phase as it is.
  silent-At :
      {A : Type 0} (p : Phase) (m : M O A)
      → Makes IsSilent m Any
      → (w : World O) → At p w
      → At p (m w).1
  silent-At p m hm w h =
      let a = (hm.run w).0 in
      record {
        reached =
            ap (phase_after (some closed)) a.whole
            ∙ phase_after-silent (some closed) w.trace a.added a.each h.reached;
      }

  pub From-pure :
      {A : Type 0} (p : Phase) (a : A) (Q : A → Phase → Type 0) → Q a p → From p (pure a) Q
  From-pure p a Q q = record { run = λ w h. (p, h, q) }

  pub From-continue :
      {A B : Type 0} (f : A → M O B) (Q : A → Phase → Type 0) (R : B → Phase → Type 0)
      (r : Result A) (w : World O) (p : Phase)
      → ((a : A) (q : Phase) → Q a q → From q (f a) R)
      → At p w
      → Post Q r p
      → (q : Phase) × At q (continue f (r, w)).1 × Post R (continue f (r, w)).0 q
  From-continue f Q R (ok a) w p k h q = (k a p q).run w h
  From-continue f Q R (thrown e) w p k h q = (p, h, tt)
  From-continue f Q R fault w p k h q = (p, h, tt)

  pub From-bind :
      {A B : Type 0} (p : Phase) (m : M O A) (f : A → M O B) (Q : A → Phase → Type 0)
      (R : B → Phase → Type 0)
      → From p m Q
      → ((a : A) (q : Phase) → Q a q → From q (f a) R)
      → From p (m >>= f) R
  unfolding ◌>>=◌
  From-bind p m f Q R hm hf = record {
    run = λ w h.
        let (r, w') = m w in
        let (q, at_q, post) = hm.run w h in From-continue f Q R r w' q hf at_q post;
  }

  silent-From :
      {A : Type 0} (p : Phase) (m : M O A) → Makes IsSilent m Any → From p m (λ a q. q ≡ p)
  silent-From p m hm = record { run = λ w h. (p, silent-At p m hm w h, stays (m w).0) }
    where
      stays : {A : Type 0} (r : Result A) → Post (λ a q. q ≡ p) r p
      stays (ok a) = refl
      stays (thrown e) = tt
      stays fault = tt

  pub Quiet-From : {A : Type 0} (p : Phase) (m : M O A) → Quiet m → From p m (λ a q. q ≡ p)
  Quiet-From p m hm = silent-From p m (Makes-Quiet IsSilent plain-IsSilent m hm)

  -- A statement that sends nothing, in front of the rest.
  pub From-silent :
      {A B : Type 0} (p : Phase) (m : M O A) (f : A → M O B) (R : B → Phase → Type 0)
      → Makes IsSilent m Any
      → ((a : A) → From p (f a) R)
      → From p (m >>= f) R
  From-silent p m f R hm hf =
      From-bind p m f (λ a q. q ≡ p) R (silent-From p m hm) (λ a q e. rw e (hf a))

  pub From-quiet :
      {A B : Type 0} (p : Phase) (m : M O A) (f : A → M O B) (R : B → Phase → Type 0)
      → Quiet m
      → ((a : A) → From p (f a) R)
      → From p (m >>= f) R
  From-quiet p m f R hm hf = From-silent p m f R (Makes-Quiet IsSilent plain-IsSilent m hm) hf

  pub From-if :
      {A : Type 0} (p : Phase) (b : Bool) (m n : M O A) (R : A → Phase → Type 0)
      → From p m R
      → From p n R
      → From p (if b then m else n) R
  From-if p true m n R hm hn = hm
  From-if p false m n R hm hn = hn

  -- A result that is known to hold at the end.
  pub From-weaken :
      {A : Type 0} (p : Phase) (m : M O A) (Q R : A → Phase → Type 0)
      → From p m Q
      → ((a : A) (q : Phase) → Q a q → R a q)
      → From p m R
  From-weaken {A} p m Q R hm k = record {
    run = λ w h. let (q, at_q, post) = hm.run w h in (q, at_q, weaker (m w).0 q post);
  }
    where
      weaker : (r : Result A) (q : Phase) → Post Q r q → Post R r q
      weaker (ok a) q h = k a q h
      weaker (thrown e) q h = tt
      weaker fault q h = tt
