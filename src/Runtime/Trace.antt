-- ===== src/Runtime/Trace.antt =====
-- The list of what is seen from outside only grows: what a step of a run adds to it.
use mathlib.Core.List.{append_assoc, append-nil}
use defensive_systems_open_u.Prelude.{◌≡◌, refl, sym, ap, ◌∙◌, List, [], ◌∷◌, ◌++◌}
use defensive_systems_open_u.Runtime.World.{Event}

abbrev pub Every : (Event → Type 0) → List Event → Type 0
Every P [] = Unit {0}
Every P (e ∷ es) = P e × Every P es

-- `t'` is `t` with more events at its end, each of which satisfies `P`.
pub record Adds (P : Event → Type 0) (t t' : List Event) : Type 0 where
  pub added : List Event
  pub whole : t' ≡ t ++ added
  pub each : Every P added

Every-append :
    (P : Event → Type 0) (es fs : List Event) → Every P es → Every P fs → Every P (es ++ fs)
Every-append P [] fs h k = k
Every-append P (e ∷ es) fs h k = (h.0, Every-append P es fs h.1 k)

module _ {P : Event → Type 0} where
  pub Adds-refl : (t : List Event) → Adds P t t
  Adds-refl t = record { added = []; whole = sym (append-nil t); each = tt }

  pub Adds-one : (t : List Event) (e : Event) → P e → Adds P t (t ++ (e ∷ []))
  Adds-one t e h = record { added = e ∷ []; whole = refl; each = (h, tt) }

  pub Adds-trans : {t u v : List Event} → Adds P t u → Adds P u v → Adds P t v
  Adds-trans {t} a b = record {
    added = a.added ++ b.added;
    whole =
        b.whole ∙ ap (λ (x : List Event). x ++ b.added) a.whole ∙ append_assoc t a.added b.added;
    each = Every-append P a.added b.added a.each b.each;
  }

module _ {P Q : Event → Type 0} (weaker : (e : Event) → P e → Q e) where
  Every-weaken : (es : List Event) → Every P es → Every Q es
  Every-weaken [] h = tt
  Every-weaken (e ∷ es) h = (weaker e h.0, Every-weaken es h.1)

  pub Adds-weaken : {t t' : List Event} → Adds P t t' → Adds Q t t'
  Adds-weaken a = record { added = a.added; whole = a.whole; each = Every-weaken a.added a.each }
