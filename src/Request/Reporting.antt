-- ===== src/Request/Reporting.antt =====
-- What a step that fails reports in the resource that it sends.
use kl_internal_operator.Base.{
  ℕ, ◌≡◌, ◌≢◌, String, false, Option, some, List, [], ◌∷◌, ◌++◌, arith, text_beq, if◌then◌else◌,
}
use mathlib.Core.List.{append_assoc}
use kl_internal_operator.Exec.{panicked}
use kl_internal_operator.GoMap.{made, get, lookup, insert}
use kl_internal_operator.GoMap.Laws.{lookup-insert}
use kl_internal_operator.Kube.{Error, Condition}
use kl_internal_operator.RawJson
use kl_internal_operator.RawJson.{Json, RawJson}
use kl_internal_operator.Conditions.{FindsFirst, millis, patch, patch_new}
use kl_internal_operator.Conditions.PatchLaws.{DistinctTypes, patch-append, find-append}
use kl_internal_operator.Operator.{Check, Object}
use kl_internal_operator.Request.{
  Client, State, failed_with_err, failed_condition, fail_with_op_error, check_failed, set_check,
}
use kl_internal_operator.Request.Converging.{Keeps, Stores}

stale :
    (find : List Condition → String → Option Condition) (law : FindsFirst find) (now : ℕ)
    (dest more : List Condition) (added old : Condition)
    → DistinctTypes find law dest
    → find dest failed_with_err ≡ some old
    → find (patch find now dest ((dest ++ more) ++ added ∷ [])).0 failed_with_err ≡ some old
stale find law now dest more added old distinct found =
    rw
      (
        append_assoc dest more (added ∷ []),
        patch-append find law now dest (more ++ added ∷ []) distinct,
      )
      (ground (
        arith,
        found,
        find-append find law dest
            (patch_new find (millis now) dest (dest ++ (more ++ added ∷ []))).0 failed_with_err,
      ))

module _ {W S V B L : Type 0} (c : Client W S V B) (keeps : Keeps c)
    (law : FindsFirst c.find_condition) where
  -- If no type stands twice in the conditions, and one of them is FailedWithErr, a later failure of
  -- whatever error leaves that condition as it is, with the message of the earlier error. The
  -- server keeps what it is sent, and the search finds the first condition of a type.
  pub fail_with_op_error_stale :
      (e : Error) (more : List Condition) (s : State W S V B L) (old : Condition)
      → DistinctTypes c.find_condition law s.object.status.ops_conditions
      → c.find_condition s.object.status.ops_conditions failed_with_err ≡ some old
      → c.find_condition
          (fail_with_op_error c (some e) more s).1.object.status.ops_conditions
          failed_with_err
        ≡ some old
  unfolding fail_with_op_error
  fail_with_op_error_stale e more s old distinct found =
      let old_conditions = s.object.status.ops_conditions in
      let now = c.now s.world in
      let added = failed_condition "OpsFailedWithErr" e in
      let patched =
        (patch c.find_condition now old_conditions ((old_conditions ++ more) ++ added ∷ [])).0 in
      let wrote = record s.object {
        status = record s.object.status {
          is_ready = false;
          ops_conditions = patched;
          last_reconcile_time = now;
        };
      } in
      ground (
        arith,
        keeps.update_status-Keeps s.world wrote,
        stale c.find_condition law now old_conditions more added old distinct found,
      )

module _ {W S V B L : Type 0} (c : Client W S V B) (keeps : Keeps c) {stored : W → Object S V B}
    (stores : Stores c stored) where
  -- `CheckFailed` on a resource whose map of checks is made, unless it panics on a message that it
  -- cannot read, with a server that takes what it is sent and stores the status of an update of the
  -- status: the resource that the server has is not ready, has the check failed with the message,
  -- and every other check as it was in memory.
  pub check_failed_lem :
      (name : String) (check : Check) (msg : String) (s : State W S V B L)
      (checks : List (String × Check))
      → s.object.status.checks ≡ made checks
      → (check_failed c name check msg s).0 ≢ panicked
      → (any : String)
      → let o = stored (check_failed c name check msg s).1.world in
        (o.status.is_ready ≡ false)
        × (get o.status.checks any ≡ (
            if text_beq name any
            then some (record check { status = false; message = msg })
            else lookup checks any))
  unfolding check_failed set_check
  check_failed_lem name check msg s checks h p any =
      let failed = record check { status = false; message = msg } in
      let set = RawJson.set c.json name (c.json.of_string msg) s.object.status.message in
      let wrote = record s.object {
        status = record s.object.status {
          is_ready = false;
          checks = made (insert name failed checks);
          message = set.1;
          last_reconcile_time = c.now s.world;
        };
      } in
      let sent =
        stores.update_status-Stores s.world wrote (keeps.update_status-Keeps s.world wrote).0 in
      ground (arith, h, p, sent, lookup-insert name any failed checks)
