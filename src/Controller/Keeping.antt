-- ===== src/Controller/Keeping.antt =====
-- What a reconciliation keeps when each of its steps keeps it.
use kl_internal_operator.Base.{
  ap, ◌∙◌, if◌then◌else◌, ℕ, ◌≡◌, refl, Bool, true, false, Option, none, some, String, List,
}
use kl_internal_operator.Exec.{Exec, Outcome, returned, panicked, resume, pure}
use kl_internal_operator.StepResult.{Step, should_proceed, reconciler_response, then_proceed}
use kl_internal_operator.Request.{Client, State, ensure_checks}
use kl_internal_operator.Request.Converging.{Keeps}
use kl_internal_operator.Request.Keeping.{ensure_checks_metadata}
use kl_internal_operator.Controller.{Response, reconcile_object}

module _ {S A B : Type 0} (P : S → Type 0) where
  resume_holds :
      (o : Outcome A) (f : A → Exec S B) (s : S)
      → ((a : A) (s' : S) → P s' → P (f a s').1)
      → P s
      → P (resume o f s).1
  resume_holds (returned a) f s h p = h a s p
  resume_holds panicked f s h p = p

module _ {S : Type 0} (P : S → Type 0) where
  chosen_holds :
      (step : Step) (b : Bool) (rest : Exec S Response) (s : S)
      → P (rest s).1
      → P s
      → P ((if b then rest else pure (reconciler_response step)) s).1
  chosen_holds step true rest s h p = h
  chosen_holds step false rest s h p = p

  pub then_proceed_holds :
      (m : Exec S Step) (rest : Exec S Response)
      → ((s : S) → P s → P (m s).1)
      → ((s : S) → P s → P (rest s).1)
      → (s : S) → P s
      → P (then_proceed m rest s).1
  unfolding then_proceed
  then_proceed_holds m rest h g s p =
      resume_holds P (m s).0 _ (m s).1
        (λ step s' p'. chosen_holds step (should_proceed step) rest s' (g s' p') p') (h s p)

branch_holds :
    {S A : Type 0} (P : S → Type 0) (d : Option ℕ) (t : ℕ) (deleting live : Exec S A) (s : S)
    → d ≡ some t
    → P (deleting s).1
    → P ((elim d as (λ _. Exec S A) [ some _ ↦ deleting | none ↦ live ]) s).1
branch_holds P none t deleting live s e h = absurd (cc e)
branch_holds P (some u) t deleting live s e h = h

module _ {W S V B L : Type 0} (c : Client W S V B) (keeps : Keeps c) where
  -- A finalizer that leaves the metadata of the resources
  pub reconcile_object_stuck :
      (checks : List String) (finalizer : Exec (State W S V B L) Step)
      (steps : List (Exec (State W S V B L) Step)) (s : State W S V B L) (t : ℕ)
      → ((s : State W S V B L) → (finalizer s).1.object.metadata ≡ s.object.metadata)
      → s.object.metadata.deletion_timestamp ≡ some t
      → (reconcile_object c checks finalizer steps s).1.object.metadata ≡ s.object.metadata
  unfolding reconcile_object
  reconcile_object_stuck checks finalizer steps s t h deleting =
      let Same : State W S V B L → Type 0 = λ s'. s'.object.metadata ≡ s.object.metadata in
      then_proceed_holds Same (ensure_checks c checks) _
        (λ s' p. ensure_checks_metadata c keeps checks s' ∙ p)
        (λ s' p.
          branch_holds Same s'.object.metadata.deletion_timestamp t _ _ s'
            (ap (λ m. m.deletion_timestamp) p ∙ deleting)
            (then_proceed_holds Same finalizer _ (λ s2 p2. h s2 ∙ p2) (λ s2 p2. p2) s' p))
        s refl
