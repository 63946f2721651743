-- ===== src/Request/Checks.antt =====
-- lib/operator.v2/request.go: the steps that end a reconciliation: `CheckFailed`, `UpdateStatus`,
-- `Done` and `Finalize`.

use kl_internal_operator.Base.{
  String, false, Option, none, some, List, [], ◌∷◌, string_eq, nat_beq, if◌then◌else◌,
}
use kl_internal_operator.Exec.{Exec, pure, gets, modify, or_panic, ◌>>=◌, ◌>>◌}
use kl_internal_operator.GoMap.{entries, assign}
use kl_internal_operator.Kube.{Error, CtrlResult}
use kl_internal_operator.RawJson
use kl_internal_operator.RawJson.{Json, RawJson}
use kl_internal_operator.StepResult
use kl_internal_operator.StepResult.{Step}
use kl_internal_operator.Operator.{Check}
use kl_internal_operator.Request.Defs.{
  Client, State, common_finalizer, foreground_finalizer, with_status, with_finalizers, on_message,
  fail_with, after, send_update, send_status, stamp,
}

module _ {W S V B L : Type 0} where
  -- `checks[name] = check`, a write to the map of the status, which may be nil.
  unfoldable pub set_check : String → Check → Exec (State W S V B L) (Unit {0})
  set_check name check = do
    s ← gets (λ s. s)
    checks ← or_panic (assign s.object.status.checks name check)
    modify (with_status (λ st. record st { checks = checks }))

module _ {W S V B L : Type 0} (c : Client W S V B) where
  -- `Done()`; with a result it requeues after that result's delay.
  unfoldable pub done : List CtrlResult → Exec (State W S V B L) Step
  done result = do
    stamp c
    sent ← send_status c
    after sent (λ e. pure (fail_with e))
        (pure (elim result [
          | [] ↦ StepResult.new
          | r ∷ _ ↦ StepResult.requeue_after r.requeue_after StepResult.new
        ]))

  unfoldable pub check_failed : String → Check → String → Exec (State W S V B L) Step
  check_failed name check msg = do
    set_check name (record check { status = false; message = msg })
    _ ← on_message (RawJson.set c.json name (c.json.of_string msg))
    modify (with_status (λ st. record st { is_ready = false }))
    stamp c
    sent ← send_status c
    pure (StepResult.with_err sent StepResult.new)

  -- A message that is empty after the deletion is replaced by a fresh one.
  unfoldable pub drop_message : String → Exec (State W S V B L) (Option Error)
  drop_message name = do
    deleted ← on_message (RawJson.delete_key c.json name)
    after deleted (λ e. pure (some e))
        (do
          n ← on_message (RawJson.json_len c.json)
          if nat_beq n 0
              then (do
                modify (with_status (λ st. record st { message = RawJson.empty }))
                pure none)
              else pure none)

  -- The loop of `UpdateStatus`: the message of every check that passed is dropped.
  unfoldable pub drop_messages : List (String × Check) → Exec (State W S V B L) (Option Error)
  unfolding drop_message
  drop_messages [] = pure none
  drop_messages ((name, check) ∷ checks) =
      let rest = drop_messages checks in
      if check.status
      then (do dropped ← drop_message name; after dropped (λ e. pure (some e)) rest)
      else rest

  unfoldable pub update_status : Exec (State W S V B L) Step
  update_status = do
    stamp c
    s ← gets (λ s. s)
    dropped ← drop_messages (entries s.object.status.checks)
    after dropped (λ e. pure (fail_with e))
        (do sent ← send_status c; pure (StepResult.with_err sent StepResult.new))

  unfoldable pub finalize : Exec (State W S V B L) Step
  finalize = do
    s ← gets (λ s. s)
    let present = s.object.metadata.finalizers
    modify (
        with_finalizers
          (c.remove_finalizer (c.remove_finalizer present common_finalizer) foreground_finalizer))
    sent ← send_update c
    pure (StepResult.with_err sent StepResult.new)
