-- ===== src/Controller.antt =====
-- The skeleton that the `Reconcile` methods of controllers/ share: the common steps in their order,
-- the branch of a resource that is being deleted, and the controller's own steps. Its lines are
-- those of each controller; the differences (check names, finalizer, own steps) are arguments.
pub mod Steps
pub mod Prepared
pub mod Waiting
pub mod Keeping
pub mod Preparing
use kl_internal_operator.Base.{ℕ, ◌*◌, String, true, false, Option, none, some, List, [], ◌∷◌}
use kl_internal_operator.Exec.{Exec, Outcome, returned, panicked, pure, gets, modify, ◌>>=◌, ◌>>◌}
use kl_internal_operator.GoMap.{made}
use kl_internal_operator.Kube.{Error, Result, ok, err, CtrlResult, empty_result, second}
use kl_internal_operator.Operator.{Object}
use kl_internal_operator.StepResult.{Step, then_proceed}
use kl_internal_operator.Request.{
  Client, State, common_finalizer, foreground_finalizer, with_status, send_status, ensure_checks,
  clear_status_if_annotated, restart_if_annotated, ensure_labels_and_annotations, ensure_finalizers,
}

-- `ReconcilationPeriod * time.Second`
abbrev pub reconcilation_period : ℕ
reconcilation_period = 30 * second

abbrev pub Response : Type 0
Response = CtrlResult × Option Error

module _ {W S V B L : Type 0} (c : Client W S V B) where
  -- The controller's own steps, one after the other, and the last lines of `Reconcile`.
  unfoldable pub run_steps : List (Exec (State W S V B L) Step) → Exec (State W S V B L) Response
  run_steps [] = do
    modify (with_status (λ st. record st { is_ready = true }))
    sent ← send_status c
    pure (record { requeue = false; requeue_after = reconcilation_period }, sent)
  run_steps (step ∷ steps) = then_proceed step (run_steps steps)

  -- Behind the test of the deletion timestamp.
  unfoldable pub reconcile_live :
      List (Exec (State W S V B L) Step) → Exec (State W S V B L) Response
  reconcile_live steps = run_steps (
      clear_status_if_annotated c
      ∷ restart_if_annotated c
      ∷ ensure_labels_and_annotations c
      ∷ ensure_finalizers c (foreground_finalizer ∷ common_finalizer ∷ [])
      ∷ steps)

  unfoldable pub reconcile_object :
      List String
      → Exec (State W S V B L) Step
      → List (Exec (State W S V B L) Step)
      → Exec (State W S V B L) Response
  reconcile_object checks finalizer steps = then_proceed (ensure_checks c checks) (do
    s ← gets (λ s. s)
    elim s.object.metadata.deletion_timestamp [
      | some _ ↦ then_proceed finalizer (pure (empty_result, none))
      | none ↦ reconcile_live steps
    ])

  -- `NewRequest` and what follows: `fetched` is the answer of client.Get, and `ignore_not_found`
  -- is client.IgnoreNotFound, which is not the operator's code.
  unfoldable pub reconcile_fetched :
      (Error → Option Error)
      → Result (Object S V B)
      → Exec (State W S V B L) Response
      → W
      → Outcome Response × W
  reconcile_fetched ignore_not_found (err e) body w =
      (returned (empty_result, ignore_not_found e), w)
  reconcile_fetched ignore_not_found (ok object) body w =
      let (r, s) = body (record { object = object; world = w; locals = made [] }) in (r, s.world)
