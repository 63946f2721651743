-- ===== src/StepResult.antt =====
-- lib/operator.v2/step-result/step.go: what a reconciliation step answers, and its chaining in the
-- `Reconcile` methods of controllers/: stop at the first step that must not proceed.
use kl_internal_operator.Base.{ℕ, Bool, true, false, ◌&&◌, Option, none, some, if◌then◌else◌}
use kl_internal_operator.Exec.{Exec, pure, ◌>>=◌}
use kl_internal_operator.Kube.{Error, CtrlResult, empty_result}

-- The struct `result`.
pub record Step : Type 0 where
  pub to_continue : Bool
  pub requeue : CtrlResult
  pub err : Option Error

abbrev pub is_nil {ℓ} : {A : Type ℓ} → Option A → Bool
is_nil none = true
is_nil (some a) = false

unfoldable pub new : Step
new = record { to_continue = false; requeue = empty_result; err = none }

unfoldable pub should_proceed : Step → Bool
should_proceed opt = opt.to_continue && is_nil opt.err

unfoldable pub reconciler_response : Step → CtrlResult × Option Error
reconciler_response opt = (opt.requeue, opt.err)

unfoldable pub continue_with : Bool → Step → Step
continue_with val opt = record opt { to_continue = val }

unfoldable pub requeue_after : ℕ → Step → Step
requeue_after d opt = record opt { requeue = record { requeue = false; requeue_after = d } }

unfoldable pub with_err : Option Error → Step → Step
with_err e opt = record opt { err = e }

-- `if step := m; !step.ShouldProceed() { return step.ReconcilerResponse() }`, then `rest`.
unfoldable pub then_proceed :
    {S : Type 0}
    → Exec S Step
    → Exec S (CtrlResult × Option Error)
    → Exec S (CtrlResult × Option Error)
then_proceed m rest = do
  step ← m
  if should_proceed step then rest else pure (reconciler_response step)
