-- ===== src/Request/Annotated.antt =====
-- lib/operator.v2/request.go: the steps that an annotation of the resource asks for.

use kl_internal_operator.Base.{
  ℕ, ◌*◌, String, false, Option, none, some, [], ◌==◌, string_eq, if◌then◌else◌,
}
use kl_internal_operator.Exec.{Exec, returned, pure, gets, modify, ◌>>=◌, ◌>>◌}
use kl_internal_operator.GoMap.{GoMap, nil_map, entries, get, delete}
use kl_internal_operator.Kube.{second}
use kl_internal_operator.Functions.{or_zero}
use kl_internal_operator.RawJson
use kl_internal_operator.RawJson.{Json, RawJson}
use kl_internal_operator.StepResult
use kl_internal_operator.StepResult.{Step}
use kl_internal_operator.Operator.{Status}
use kl_internal_operator.Request.Defs.{
  Client, State, clear_status_key, restart_key, with_status, with_annotations, proceed, after,
  restart_args, send_update, send_status,
}
use kl_internal_operator.Request.Failing.{fail_with_status_error, fail_with_op_error}
use kl_internal_operator.Request.Checks.{done}

-- The fields that `ClearStatusIfAnnotated` resets.
abbrev pub cleared : {V B : Type 0} → ℕ → Status V B → Status V B
cleared now st = record st {
  is_ready = false;
  last_reconcile_time = now;
  checks = nil_map;
  message = RawJson.empty;
  messages = [];
  conditions = [];
  ops_conditions = [];
  child_conditions = [];
  display_vars = RawJson.empty;
}

module _ {W S V B L : Type 0} (c : Client W S V B) where
  -- The second part of it, once the annotation is gone.
  unfoldable pub reset_status : Exec (State W S V B L) Step
  reset_status = do
    modify (λ s. with_status (cleared (c.now s.world)) s)
    sent ← send_status c
    after sent (λ e. fail_with_op_error c (some e) [])
        (do step ← done c []; pure (StepResult.requeue_after (2 * second) step))

  unfoldable pub clear_status : GoMap String → Exec (State W S V B L) Step
  clear_status ann = do
    modify (with_annotations (delete ann clear_status_key))
    sent ← send_update c
    after sent (λ e. fail_with_op_error c (some e) []) reset_status

  unfoldable pub clear_status_if_annotated : Exec (State W S V B L) Step
  clear_status_if_annotated = do
    s ← gets (λ s. s)
    let ann = s.object.metadata.annotations
    if or_zero "" (get ann clear_status_key) == "true" then clear_status ann else pure proceed

  -- `kubectl.Restart` on the labels of the resource; its exit code and error are only logged.
  restart : String → Exec (State W S V B L) (Unit {0})
  restart kind s =
      let m = s.object.metadata in
      let args = restart_args kind m.namespace (entries (c.ensured_labels s.object)) in
      (returned tt, record s { world = (c.kubectl s.world args).1 })

  unfoldable pub roll_out : Exec (State W S V B L) Step
  unfolding restart
  roll_out = do
    restart "deployments"
    restart "statefulsets"
    step ← done c []
    pure (StepResult.requeue_after (2 * second) step)

  unfoldable pub restart_all : GoMap String → Exec (State W S V B L) Step
  restart_all ann = do
    modify (with_annotations (delete ann restart_key))
    sent ← send_update c
    after sent (λ e. fail_with_op_error c (some e) []) roll_out

  unfoldable pub restart_if_annotated : Exec (State W S V B L) Step
  restart_if_annotated = do
    s ← gets (λ s. s)
    let ann = s.object.metadata.annotations
    if or_zero "" (get ann restart_key) == "true" then restart_all ann else pure proceed

  -- `DebuggingOnlySetStatus`: where it does not fail its result is nil.
  unfoldable pub debugging_only_set_status : Status V B → Exec (State W S V B L) (Option Step)
  debugging_only_set_status status = do
    s ← gets (λ s. s)
    let ann = s.object.metadata.annotations
    if or_zero "" (get ann "kloudlite.io/reset-status") == "true"
        then (do
          modify (
              with_status λ st. record st {
                ops_conditions = status.ops_conditions;
                conditions = status.conditions;
                child_conditions = status.child_conditions;
                display_vars = status.display_vars;
                generated_vars = status.generated_vars;
                is_ready = status.is_ready;
              })
          status_sent ← send_status c
          after status_sent
              (λ e. (do step ← fail_with_status_error c (some e) []; pure (some step)))
              (do
                modify (with_annotations (delete ann "kloudlite.io/reset-status"))
                sent ← send_update c
                after sent (λ e. (do step ← fail_with_status_error c (some e) []; pure (some step)))
                    (pure none)))
        else pure none
