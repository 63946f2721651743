-- ===== src/Request/Failing.antt =====
-- lib/operator.v2/request.go: `FailWithStatusError` and `FailWithOpError`.

use kl_internal_operator.Base.{String, false, Option, none, some, List, [], ◌∷◌, ◌++◌, string_eq}
use kl_internal_operator.Base.Integers.{pos}
use kl_internal_operator.Exec.{Exec, pure, gets, modify, ◌>>=◌, ◌>>◌}
use kl_internal_operator.Kube.{Error, Condition, condition_false}
use kl_internal_operator.Conditions.{patch}
use kl_internal_operator.StepResult.{Step}
use kl_internal_operator.Request.Defs.{
  Client, State, failed_with_err, with_status, proceed, fail_with, after, send_status, stamp,
}

unfoldable pub failed_condition : String → Error → Condition
failed_condition reason e = record {
  ctype = failed_with_err;
  status = condition_false;
  observed_generation = pos 0;
  last_transition_time = 0;
  reason = reason;
  message = e.message;
}

module _ {W S V B L : Type 0} (c : Client W S V B) where
  -- `FailWithStatusError`; conditions.Patch takes its time from the clock.
  unfoldable pub fail_with_status_error :
      Option Error → List Condition → Exec (State W S V B L) Step
  unfolding failed_condition
  fail_with_status_error none more = pure proceed
  fail_with_status_error (some e) more = do
    s ← gets (λ s. s)
    let old = s.object.status.conditions
    let source = (old ++ more) ++ failed_condition "StatusFailedWithErr" e ∷ []
    let conditions = (patch c.find_condition (c.now s.world) old source).0
    modify (with_status (λ st. record st { is_ready = false; conditions = conditions }))
    stamp c
    sent ← send_status c
    after sent (λ e2. pure (fail_with e2)) (pure (fail_with e))

  unfoldable pub fail_with_op_error : Option Error → List Condition → Exec (State W S V B L) Step
  unfolding failed_condition
  fail_with_op_error none more = pure proceed
  fail_with_op_error (some e) more = do
    s ← gets (λ s. s)
    let old = s.object.status.ops_conditions
    let source = (old ++ more) ++ failed_condition "OpsFailedWithErr" e ∷ []
    let conditions = (patch c.find_condition (c.now s.world) old source).0
    modify (with_status (λ st. record st { is_ready = false; ops_conditions = conditions }))
    stamp c
    sent ← send_status c
    after sent (λ e2. pure (fail_with e2)) (pure (fail_with e))
