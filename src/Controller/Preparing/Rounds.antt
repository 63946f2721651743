-- ===== src/Controller/Preparing/Rounds.antt =====
-- Reconciliations of one resource, one after the other, until the controller's own steps run.
use kl_internal_operator.Base.{
  ℕ, zero, suc, ◌<◌, ◌≤◌, ◌≡◌, refl, ap, ◌∙◌, ◌⊎◌, inl, inr, Option, none, some, List, [], arith,
}
use kl_internal_operator.Exec.{Exec}
use kl_internal_operator.GoMap.{made}
use kl_internal_operator.Kube.{ok}
use kl_internal_operator.StepResult.{Step}
use kl_internal_operator.Operator.{Object}
use kl_internal_operator.Request.{Client, State, ensure_checks}
use kl_internal_operator.Request.Converging.{Keeps, Stores, AddsFinalizer}
use kl_internal_operator.Controller.{
  Response, run_steps, reconcile_live, reconcile_object, reconcile_fetched,
}
use kl_internal_operator.Controller.Preparing.{Wanted, IsSound, Kept, rounds_left}
use kl_internal_operator.Controller.Preparing.Checks.{ensure_checks-Advances}
use kl_internal_operator.Controller.Preparing.Synced.{ensure_checks-Synced}
use kl_internal_operator.Controller.Preparing.Chains.{
  Kept-trans, Kept-refl, total-le, Fits, Fits-Kept, Chain, then_proceed-Chain, reconcile_live-Chain,
}

module _ {W S V B L : Type 0} (c : Client W S V B) (keeps : Keeps c) {stored : W → Object S V B}
    (stores : Stores c stored) (want : Wanted) (adds : AddsFinalizer c.add_finalizer)
    (sound : IsSound want) (finalizer : Exec (State W S V B L) Step) where
  abbrev reconcile : List (Exec (State W S V B L) Step) → Exec (State W S V B L) Response
  reconcile steps = reconcile_object c want.names finalizer steps

  -- The request of a reconciliation: the resource that the server has, and a new scratch map.
  abbrev fetched : W → State W S V B L
  fetched w = record { object = stored w; world = w; locals = made [] }

  when_alive :
      (d : Option ℕ) (deleting live : Exec (State W S V B L) Response) (s : State W S V B L)
      → d ≡ none
      → (elim d as (λ _. Exec (State W S V B L) Response) [ some _ ↦ deleting | none ↦ live ]) s
        ≡ live s
  when_alive none deleting live s e = refl
  when_alive (some t) deleting live s e = absurd (cc e)

  progress :
      (w : W)
      → (stored w).metadata.deletion_timestamp ≡ none
      → Fits c want (stored w)
      → ((steps : List (Exec (State W S V B L) Step))
          → reconcile steps (fetched w) ≡ run_steps c steps (fetched w))
        ⊎ ((s' : State W S V B L) × ((steps : List (Exec (State W S V B L) Step))
              → (reconcile steps (fetched w)).1 ≡ s')
            × Kept (stored w) (stored s'.world)
            × (rounds_left want (stored s'.world) < rounds_left want (stored w)))
  unfolding reconcile_object reconcile_live run_steps Chain
  progress w alive fits =
      let s = fetched w in
      elim (then_proceed-Chain c keeps stores want (ensure_checks c want.names) s
        (ensure_checks-Advances c keeps want s)
        (ensure_checks-Synced c keeps stores want.names s refl)) [
          | inr (s', e, kept, less) ↦ inr (s', λ steps. e _, kept, less)
          | inl e ↦ elim (reconcile_live-Chain c keeps stores want adds sound s refl fits) [
            | inl live ↦ inl (λ steps. e _ ∙ when_alive _ _ _ s alive ∙ live (run_steps c steps))
            | inr (s', live, kept, less) ↦ inr (
              s',
              λ steps. ap (λ r. r.1) (e _ ∙ when_alive _ _ _ s alive) ∙ live (run_steps c steps),
              kept,
              less,
            )
          ]
        ]

  -- The world after so many reconciliations, each of which fetches the resource anew; the fetch
  -- finds it, so that no error of it is ignored.
  pub rounds : List (Exec (State W S V B L) Step) → ℕ → W → W
  unfolding reconcile_fetched
  rounds steps zero w = w
  rounds steps (suc n) w =
      rounds steps n (reconcile_fetched c some (ok (stored w)) (reconcile steps) w).1

  prepares :
      (m : ℕ) (w : W)
      → rounds_left want (stored w) ≤ m
      → (stored w).metadata.deletion_timestamp ≡ none
      → Fits c want (stored w)
      → (n : ℕ) × (n ≤ m)
        × (w' : W) × ((steps : List (Exec (State W S V B L) Step)) → rounds steps n w ≡ w')
        × ((steps : List (Exec (State W S V B L) Step))
            → reconcile steps (fetched w') ≡ run_steps c steps (fetched w'))
        × Kept (stored w) (stored w')
  unfolding rounds reconcile_fetched
  prepares zero w left alive fits = elim (progress w alive fits) [
    | inl ready ↦ (0, omega arith, w, λ steps. refl, ready, Kept-refl (stored w))
    | inr (s1, e, kept, less) ↦ absurd (omega (arith, left, less))
  ]
  prepares (suc m) w left alive fits = elim (progress w alive fits) [
    | inl ready ↦ (0, omega arith, w, λ steps. refl, ready, Kept-refl (stored w))
    | inr (s1, e, kept, less) ↦
        let w1 = s1.world in
        let (n, le, w', reached, ready, kept') =
          prepares m w1 (omega (arith, left, less)) (kept.same_deletion ∙ alive)
            (Fits-Kept c want (stored w) (stored w1) fits kept) in
        (
          suc n,
          omega (arith, le),
          w',
          λ steps. ap (λ s. rounds steps n s.world) (e steps) ∙ reached steps,
          ready,
          Kept-trans (stored w) (stored w1) (stored w') kept kept',
        )
  ]

  -- Let the server take what it is sent and answer with it, and store an update but for the status,
  -- and an update of the status but for the rest; let kubectl leave the resource, and an added
  -- finalizer be there with those that were. Let the labels and annotations to be ensured depend on
  -- the spec, the name and the deletion timestamp alone, with no key twice and no annotation that
  -- asks for a clear status or a restart. Then the reconciliations of a resource that is not being
  -- deleted, each of which fetches it anew, reach after at most six, whatever the controller's own
  -- steps, a state of the server from which those steps run on the resource as it is fetched; the
  -- server has it with the spec, the name and the deletion timestamp that it had. Nothing but the
  -- controller changes the resource meanwhile.
  pub reconcile_prepares :
      (w : W)
      → (stored w).metadata.deletion_timestamp ≡ none
      → Fits c want (stored w)
      → (n : ℕ) × (n ≤ 6)
        × (w' : W) × ((steps : List (Exec (State W S V B L) Step)) → rounds steps n w ≡ w')
        × ((steps : List (Exec (State W S V B L) Step))
            → reconcile steps (fetched w') ≡ run_steps c steps (fetched w'))
        × Kept (stored w) (stored w')
  reconcile_prepares w alive fits = prepares 6 w (total-le _ _ _ _ _) alive fits
