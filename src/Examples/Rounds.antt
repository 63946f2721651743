-- ===== src/Examples/Rounds.antt =====
-- The reconciliations of a resource at a concrete input: one that has no check yet.
use kl_internal_operator.Base.{ℕ, ◌≤◌, ◌≡◌, refl, String, none, List, [], ◌∷◌}
use kl_internal_operator.Exec.{Exec}
use kl_internal_operator.GoMap.{nil_map, lookup}
use kl_internal_operator.StepResult.{Step}
use kl_internal_operator.Request.{State, finalize}
use kl_internal_operator.Request.Converging.{AddsFinalizer}
use kl_internal_operator.Controller.{run_steps, reconcile_object}
use kl_internal_operator.Controller.Preparing.{Wanted, IsSound, Kept}
use kl_internal_operator.Controller.Preparing.Rounds.{rounds, reconcile_prepares}
use kl_internal_operator.Examples.{
  Resource, storing, storing-Keeps, storing-Stores, request, metadata, status,
}

abbrev Example : Type 0
Example = State (Resource Unit) Unit String (List (String × String)) Unit

abbrev unprepared : Resource Unit
unprepared = record { metadata = metadata none; spec = tt; status = status nil_map }

abbrev wanted : Wanted
wanted = record {
  names = "ready" ∷ [];
  labels = ("kloudlite.io/account-name", "acc") ∷ [];
  annotations = [];
}

wanted-IsSound : IsSound wanted
wanted-IsSound = record {
  labels-HasDistinctKeys = (unfold lookup in refl, tt);
  annotations-HasDistinctKeys = tt;
  clear_status-apart = unfold lookup in refl;
  restart-apart = unfold lookup in refl;
}

cons-AddsFinalizer : AddsFinalizer (λ fs f. f ∷ fs)
cons-AddsFinalizer fs f g h = h

reconcile_prepares_example :
    (n : ℕ) × (n ≤ 6)
    × (w : Resource Unit) × ((steps : List (Exec Example Step))
        → rounds storing storing-Keeps storing-Stores wanted cons-AddsFinalizer wanted-IsSound
            (finalize storing)
            steps
            n
            unprepared
          ≡ w)
    × ((steps : List (Exec Example Step))
        → reconcile_object storing ("ready" ∷ []) (finalize storing) steps (request w)
          ≡ run_steps storing steps (request w))
    × Kept unprepared w
reconcile_prepares_example =
    reconcile_prepares storing storing-Keeps storing-Stores wanted cons-AddsFinalizer wanted-IsSound
      (finalize storing) unprepared refl (λ o kept. (refl, refl))
