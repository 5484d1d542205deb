-- ===== src/Main/Total.antt =====
-- main.cpp: how a run ends.
use defensive_systems_open_u.Prelude.{◌≡◌, ◌≢◌, refl, true, false, ◌⊎◌, inl, inr, [], ◌∷◌, ◌++◌}
use defensive_systems_open_u.Logger
use defensive_systems_open_u.Main.{handle_client, main, catch_exception}
use defensive_systems_open_u.Runtime.Library.{Library}
use defensive_systems_open_u.Runtime.Os.{Os}
use defensive_systems_open_u.Runtime.Exec.{Exception, Result, ok, thrown, fault, ◌>>=◌}
use defensive_systems_open_u.Runtime.Trace.{Adds, Adds-refl, Adds-one, Adds-trans}
use defensive_systems_open_u.Runtime.World.{World}
use defensive_systems_open_u.Protocol.Quiet.{IsPlain}

-- The three ways in which a statement ends.
data End {A S : Type 0} (p : Result A × S) : Type 0 where
  returned : (a : A) (s : S) → p ≡ (ok a, s) → End p
  raised : (e : Exception) (s : S) → p ≡ (thrown e, s) → End p
  undefined : (s : S) → p ≡ (fault, s) → End p

finish : {A S : Type 0} (p : Result A × S) → End p
finish (ok a, s) = returned a s refl
finish (thrown e, s) = raised e s refl
finish (fault, s) = undefined s refl

module _ {O : Os} (L : Library) where
  -- Whatever the client does, the exit status is 0: the result of `handleClient` and every
  -- exception are only logged. The one other end of a run is undefined behaviour, and it is an end
  -- of `main` just where it is one of `handleClient`. What is seen of the run from outside is what is
  -- seen of `handleClient`, and after that only text on the standard streams.
  pub main_status :
      (w : World O)
      → ((((handle_client L w).0 ≡ fault) × ((main L w).0 ≡ fault))
          ⊎ (((handle_client L w).0 ≢ fault) × ((main L w).0 ≡ ok 0)))
        × Adds IsPlain (handle_client L w).1.trace (main L w).1.trace
  unfolding main ◌>>=◌ catch_exception Logger.info Logger.error
  main_status w = elim (finish (handle_client L w)) [
    | returned true v e ↦ (inr (rw e (λ h. cc), rw e refl), rw e (Adds-one v.trace _ tt))
    | returned false v e ↦ (inr (rw e (λ h. cc), rw e refl), rw e (Adds-one v.trace _ tt))
    | raised x v e ↦ (
      inr (rw e (λ h. cc), rw e refl),
      rw e (Adds-trans (Adds-one v.trace _ tt) (Adds-one (v.trace ++ (_ ∷ [])) _ tt)),
    )
    | undefined v e ↦ (inl (rw e refl, rw e refl), rw e (Adds-refl v.trace))
  ]
