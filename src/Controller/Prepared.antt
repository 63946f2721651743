-- ===== src/Controller/Prepared.antt =====
-- What holds of a resource when the controller's own steps, or its finalizer, begin.
use kl_internal_operator.Base.{
  ℕ, ◌∙◌, ◌≡◌, ◌≢◌, refl, ◌⊎◌, inl, inr, String, true, false, Option, none, some, List, [], ◌∷◌,
  All, ◌==◌, string_eq, Bool-cases,
}
use kl_internal_operator.Exec.{Exec, Outcome, returned, panicked, pure}
use kl_internal_operator.Kube.{empty_result}
use kl_internal_operator.GoMap.{get}
use kl_internal_operator.Functions.{contains_finalizers, map_contains, or_zero}
use kl_internal_operator.StepResult.{
  Step, should_proceed, reconciler_response, then_proceed, continue_with, new,
}
use kl_internal_operator.Request.{
  Client, State, proceed, common_finalizer, foreground_finalizer, clear_status_key, restart_key,
  ensure_checks, ensure_labels_and_annotations, ensure_finalizers, clear_status_if_annotated,
  restart_if_annotated,
}
use kl_internal_operator.Request.Stopping.{
  Proceeds, Proceeds-cases, ensure_checks-present, ensure_checks-Proceeds,
  ensure_finalizers-Proceeds, ensure_labels_and_annotations-Proceeds,
  clear_status_if_annotated-Proceeds, restart_if_annotated-Proceeds,
}
use kl_internal_operator.Controller.{Response, run_steps, reconcile_live, reconcile_object}

-- Whatever `body` is, it is run in the state `s`, where `P` holds; or whatever it is, it is not run.
abbrev pub Guards : {S : Type 0} → ((Exec S Response) → Outcome Response × S) → S → Type 0 → Type 0
Guards {S} f s P =
    (P × ((body : Exec S Response) → f body ≡ body s))
    ⊎ ((r : Outcome Response × S) × ((body : Exec S Response) → f body ≡ r))

module _ {S : Type 0} where
  by_outcome :
      (m : Exec S Step) (s s' : S) (P : Type 0) (o : Outcome Step)
      → m s ≡ (o, s')
      → (Proceeds o → (s' ≡ s) × P)
      → Guards (λ body. then_proceed m body s) s P
  unfolding then_proceed
  by_outcome m s s' P panicked e h = inr ((panicked, s'), λ body. rw e refl)
  by_outcome m s s' P (returned st) e h = elim (Bool-cases (should_proceed st)) [
    | inl p ↦ inl ((h p).1, λ body. rw (e, p, (h p).0) refl)
    | inr p ↦ inr ((returned (reconciler_response st), s'), λ body. rw (e, p) refl)
  ]

  -- A step that changes nothing when it proceeds.
  then_proceed-Guards :
      (m : Exec S Step) (s : S) (P : Type 0)
      → (Proceeds (m s).0 → ((m s).1 ≡ s) × P)
      → Guards (λ body. then_proceed m body s) s P
  then_proceed-Guards m s P h = by_outcome m s (m s).1 P (m s).0 refl h

  Guards_and :
      (f g : Exec S Response → Exec S Response) (s : S) (P Q : Type 0)
      → Guards (λ body. f body s) s P
      → Guards (λ body. g body s) s Q
      → Guards (λ body. f (g body) s) s (P × Q)
  Guards_and f g s P Q (inr (r, e)) _ = inr (r, λ body. e (g body))
  Guards_and f g s P Q (inl (p, e)) (inl (q, e')) =
      inl ((p, q), λ body. rw (e (g body), e' body) refl)
  Guards_and f g s P Q (inl (p, e)) (inr (r, e')) = inr (r, λ body. rw (e (g body), e' body) refl)

-- The answer of a step that does not proceed.
abbrev pub stopped_with : {S : Type 0} → Outcome Step → S → Outcome Response × S
stopped_with panicked s = (panicked, s)
stopped_with (returned st) s = (returned (reconciler_response st), s)

abbrev branch : {S A : Type 0} → Option ℕ → Exec S A → Exec S A → Exec S A
branch d deleting live = elim d [ some _ ↦ deleting | none ↦ live ]

-- The branch of a resource without a deletion timestamp.
when_alive :
    {S A : Type 0} (d : Option ℕ) (deleting live : Exec S A) (s : S)
    → d ≡ none
    → branch d deleting live s ≡ live s
when_alive none deleting live s e = refl
when_alive (some t) deleting live s e = absurd (cc e)

when_deleting :
    {S A : Type 0} (d : Option ℕ) (t : ℕ) (deleting live : Exec S A) (s : S)
    → d ≡ some t
    → branch d deleting live s ≡ deleting s
when_deleting none t deleting live s e = absurd (cc e)
when_deleting (some u) t deleting live s e = refl

module _ {W S V B L : Type 0} (c : Client W S V B) where
  -- The resource has every check.
  abbrev pub HasChecks : List String → State W S V B L → Type 0
  HasChecks checks s = All (λ n. get s.object.status.checks n ≢ none) checks

  -- The resource has no request to clear its status or to restart, and has the labels, annotations
  -- and finalizers that it is to have.
  abbrev pub Prepared : State W S V B L → Type 0
  Prepared s =
      let m = s.object.metadata in
      ((or_zero "" (get m.annotations clear_status_key) == "true") ≡ false)
      × (((or_zero "" (get m.annotations restart_key) == "true") ≡ false)
          × (((map_contains "" m.labels (c.ensured_labels s.object) ≡ true)
                × (map_contains "" m.annotations (c.ensured_annotations s.object) ≡ true))
              × (contains_finalizers m.finalizers (foreground_finalizer ∷ common_finalizer ∷ [])
                  ≡ true)))

  reconcile_live-Guards :
      (s : State W S V B L)
      → Guards
          (λ body.
            then_proceed
              (clear_status_if_annotated c)
              (then_proceed (restart_if_annotated c) (
                then_proceed (ensure_labels_and_annotations c) (
                  then_proceed
                    (ensure_finalizers c (foreground_finalizer ∷ common_finalizer ∷ []))
                    body)))
              s)
          s
          (Prepared s)
  reconcile_live-Guards s =
      let finalizers = foreground_finalizer ∷ common_finalizer ∷ [] in
      Guards_and (then_proceed (clear_status_if_annotated c)) _ s _ _
        (then_proceed-Guards (clear_status_if_annotated c) s _
          (clear_status_if_annotated-Proceeds c s))
        (Guards_and (then_proceed (restart_if_annotated c)) _ s _ _
          (then_proceed-Guards (restart_if_annotated c) s _ (restart_if_annotated-Proceeds c s))
          (Guards_and (then_proceed (ensure_labels_and_annotations c)) _ s _ _
            (then_proceed-Guards (ensure_labels_and_annotations c) s
              ((map_contains "" s.object.metadata.labels (c.ensured_labels s.object) ≡ true)
                × (map_contains "" s.object.metadata.annotations (c.ensured_annotations s.object)
                    ≡ true))
              (ensure_labels_and_annotations-Proceeds c s))
            (then_proceed-Guards (ensure_finalizers c finalizers) s _
              (ensure_finalizers-Proceeds c finalizers s))))

  -- Of a resource that is not being deleted, the common steps either let the controller's own steps
  -- run in the very state that was fetched, and then every check is there and the resource is
  -- `Prepared`; or they answer by themselves, and the own steps have no say in the answer.
  pub reconcile_object-Prepared :
      (checks : List String) (finalizer : Exec (State W S V B L) Step) (s : State W S V B L)
      → s.object.metadata.deletion_timestamp ≡ none
      → ((HasChecks checks s × Prepared s)
          × ((steps : List (Exec (State W S V B L) Step))
              → reconcile_object c checks finalizer steps s ≡ run_steps c steps s))
        ⊎ ((r : Outcome Response × State W S V B L) × ((steps : List (Exec (State W S V B L) Step))
              → reconcile_object c checks finalizer steps s ≡ r))
  unfolding reconcile_object reconcile_live run_steps
  reconcile_object-Prepared checks finalizer s alive =
      let checked =
        then_proceed-Guards (ensure_checks c checks) s _ (ensure_checks-Proceeds c checks s) in
      elim checked [
        | inr (r, e) ↦ inr (r, λ steps. e _)
        | inl (present, e) ↦ elim (reconcile_live-Guards s) [
          | inl (prepared, live) ↦ inl (
            (present, prepared),
            λ steps. e _ ∙ when_alive _ _ _ s alive ∙ live (run_steps c steps),
          )
          | inr (r, live) ↦
              inr (r, λ steps. e _ ∙ when_alive _ _ _ s alive ∙ live (run_steps c steps))
        ]
      ]

  -- A step that does not proceed is the answer, and the state after it the last one.
  stopped_state :
      (m : Exec (State W S V B L) Step) (body : Exec (State W S V B L) Response)
      (s s' : State W S V B L) (o : Outcome Step)
      → m s ≡ (o, s')
      → ¬ Proceeds o
      → (then_proceed m body s ≡ stopped_with o s')
  unfolding then_proceed
  stopped_state m body s s' panicked e stops = rw e refl
  stopped_state m body s s' (returned st) e stops = elim (Bool-cases (should_proceed st)) [
    | inl p ↦ absurd (stops p)
    | inr p ↦ rw (e, p) refl
  ]

  passed_on :
      (m : Exec (State W S V B L) Step) (body : Exec (State W S V B L) Response)
      (s : State W S V B L)
      → m s ≡ (returned proceed, s)
      → then_proceed m body s ≡ body s
  unfolding then_proceed should_proceed continue_with new
  passed_on m body s e = rw e refl

  ensure_checks_goes_on :
      (checks : List String) (s : State W S V B L)
      → HasChecks checks s
      → Proceeds (ensure_checks c checks s).0
  unfolding should_proceed continue_with new
  ensure_checks_goes_on checks s present = rw (ensure_checks-present c checks s present) refl

  -- Of a resource that is being deleted, the controller's own steps never run. Where every check is
  -- there, the reconciliation is that of the finalizer in the state that was fetched, with an empty
  -- result when it proceeds. Where a check is missing, the step of the checks ends the
  -- reconciliation with its own answer, or with its panic.
  pub reconcile_object_deleting :
      (checks : List String) (finalizer : Exec (State W S V B L) Step) (s : State W S V B L) (t : ℕ)
      → s.object.metadata.deletion_timestamp ≡ some t
      → (HasChecks checks s
          × ((steps : List (Exec (State W S V B L) Step))
              → reconcile_object c checks finalizer steps s
                ≡ then_proceed finalizer (pure (empty_result, none)) s))
        ⊎ ((¬ HasChecks checks s)
            × ((steps : List (Exec (State W S V B L) Step))
                → reconcile_object c checks finalizer steps s
                  ≡ stopped_with (ensure_checks c checks s).0 (ensure_checks c checks s).1))
  unfolding reconcile_object
  reconcile_object_deleting checks finalizer s t deleting =
      elim (Proceeds-cases (ensure_checks c checks s).0) [
        | inl p ↦
            let (_, present) = ensure_checks-Proceeds c checks s p in
            inl (
              present,
              λ steps.
                  passed_on _ _ s (ensure_checks-present c checks s present)
                  ∙ when_deleting _ t _ _ s deleting,
            )
        | inr stops ↦ inr (
          λ present. stops (ensure_checks_goes_on checks s present),
          λ steps. stopped_state _ _ s _ _ refl stops,
        )
      ]
