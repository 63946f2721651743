-- ===== src/Request/Ensuring.antt =====
-- lib/operator.v2/request.go: the `Ensure...` steps, which bring the metadata and the checks of the
-- resource up to what the controller needs, and stop the reconciliation when they wrote.

use kl_internal_operator.Base.{
  String, not, ◌||◌, none, some, List, [], ◌∷◌, length, string_eq, nat_beq, if◌then◌else◌,
}
use kl_internal_operator.Exec.{Exec, pure, gets, modify, ◌>>=◌, ◌>>◌}
use kl_internal_operator.GoMap.{made, entries, insert, insert_all, lookup, len}
use kl_internal_operator.Functions.{map_contains, contains_finalizers}
use kl_internal_operator.StepResult
use kl_internal_operator.StepResult.{Step}
use kl_internal_operator.Operator.{Check, zero_check}
use kl_internal_operator.Request.Defs.{
  Client, State, with_status, with_annotations, with_labels, with_finalizers, proceed, after,
  send_update, send_status,
}
use kl_internal_operator.Request.Failing.{fail_with_op_error}

-- The loop of `EnsureChecks` over the names.
unfoldable pub add_checks : List String → List (String × Check) → List (String × Check)
add_checks [] checks = checks
add_checks (n ∷ names) checks =
    add_checks names
      (elim (lookup checks n) [ none ↦ insert n zero_check checks | some _ ↦ checks ])

-- The loop of `EnsureFinalizers`; `add` is controllerutil.AddFinalizer.
unfoldable pub add_finalizers :
    (List String → String → List String) → List String → List String → List String
add_finalizers add present [] = present
add_finalizers add present (f ∷ fs) = add_finalizers add (add present f) fs

module _ {W S V B L : Type 0} (c : Client W S V B) where
  -- What `EnsureChecks` does with checks that are new.
  unfoldable pub write_checks : List (String × Check) → Exec (State W S V B L) Step
  write_checks checks = do
    modify (with_status (λ st. record st { checks = made checks }))
    sent ← send_status c
    after sent (λ e. fail_with_op_error c (some e) []) (pure StepResult.new)

  unfoldable pub ensure_checks : List String → Exec (State W S V B L) Step
  ensure_checks names = do
    s ← gets (λ s. s)
    let old = s.object.status.checks
    let checks = add_checks names (entries old)
    if not (nat_beq (len old) (length checks)) then write_checks checks else pure proceed

  unfoldable pub ensure_labels_and_annotations : Exec (State W S V B L) Step
  ensure_labels_and_annotations = do
    s ← gets (λ s. s)
    let m = s.object.metadata
    let labels = c.ensured_labels s.object
    let annotations = c.ensured_annotations s.object
    if not (map_contains "" m.labels labels) || not (map_contains "" m.annotations annotations)
        then (do
          modify (with_labels (made (insert_all (entries labels) (entries m.labels))))
          modify
              (with_annotations (made (insert_all (entries annotations) (entries m.annotations))))
          sent ← send_update c
          pure (StepResult.with_err sent StepResult.new))
        else pure proceed

  -- What `EnsureFinalizers` does when one of them is missing.
  unfoldable pub write_finalizers : List String → Exec (State W S V B L) Step
  write_finalizers finalizers = do
    modify (with_finalizers finalizers)
    sent ← send_update c
    after sent (λ e. fail_with_op_error c (some e) []) (pure StepResult.new)

  unfoldable pub ensure_finalizers : List String → Exec (State W S V B L) Step
  ensure_finalizers finalizers = do
    s ← gets (λ s. s)
    let present = s.object.metadata.finalizers
    if not (contains_finalizers present finalizers)
        then write_finalizers (add_finalizers c.add_finalizer present finalizers)
        else pure proceed
