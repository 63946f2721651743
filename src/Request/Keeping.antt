-- ===== src/Request/Keeping.antt =====
-- What the steps that end a reconciliation do to the metadata of the resource.
use mathlib.Core.Path.{subst}
use kl_internal_operator.Base.{
  ◌++◌, ◌∷◌, some, ◌≡◌, ◌≢◌, ◌↔◌, sym, ap, Any, String, false, [], arith, List,
}
use kl_internal_operator.GoMap.{made, entries, insert}
use kl_internal_operator.Kube.{Error}
use kl_internal_operator.Conditions.{patch}
use kl_internal_operator.RawJson
use kl_internal_operator.Operator.{Check, Object}
use kl_internal_operator.Request.{
  Client, State, done, fail_with_status_error, fail_with_op_error, ensure_checks, write_checks,
  add_checks, failed_condition, check_failed, set_check, finalize, common_finalizer,
  foreground_finalizer,
}
use kl_internal_operator.Request.Converging.{Keeps, Stores}

module _ {W S V B L : Type 0} (c : Client W S V B) (keeps : Keeps c) where
  -- What the server has after a write of the status.
  pub done_metadata : (s : State W S V B L) → (done c [] s).1.object.metadata ≡ s.object.metadata
  unfolding done
  done_metadata s =
      let wrote = record s.object {
        status = record s.object.status { last_reconcile_time = c.now s.world };
      } in
      ground (arith, keeps.update_status-Keeps s.world wrote)

  pub check_failed_metadata :
      (name : String) (check : Check) (msg : String) (s : State W S V B L)
      → (check_failed c name check msg s).1.object.metadata ≡ s.object.metadata
  unfolding check_failed set_check
  check_failed_metadata name check msg s =
      let failed = record check { status = false; message = msg } in
      let set = RawJson.set c.json name (c.json.of_string msg) s.object.status.message in
      let wrote = record s.object {
        status = record s.object.status {
          is_ready = false;
          checks = made (insert name failed (entries s.object.status.checks));
          message = set.1;
          last_reconcile_time = c.now s.world;
        };
      } in
      ground (arith, keeps.update_status-Keeps s.world wrote)

  pub fail_with_status_error_metadata :
      (e : Error) (s : State W S V B L)
      → (fail_with_status_error c (some e) [] s).1.object.metadata ≡ s.object.metadata
  unfolding fail_with_status_error
  fail_with_status_error_metadata e s =
      let old = s.object.status.conditions in
      let source = (old ++ []) ++ failed_condition "StatusFailedWithErr" e ∷ [] in
      let wrote = record s.object {
        status = record s.object.status {
          is_ready = false;
          conditions = (patch c.find_condition (c.now s.world) old source).0;
          last_reconcile_time = c.now s.world;
        };
      } in
      ground (arith, keeps.update_status-Keeps s.world wrote)

  pub fail_with_op_error_metadata :
      (e : Error) (s : State W S V B L)
      → (fail_with_op_error c (some e) [] s).1.object.metadata ≡ s.object.metadata
  unfolding fail_with_op_error
  fail_with_op_error_metadata e s =
      let old = s.object.status.ops_conditions in
      let source = (old ++ []) ++ failed_condition "OpsFailedWithErr" e ∷ [] in
      let wrote = record s.object {
        status = record s.object.status {
          is_ready = false;
          ops_conditions = (patch c.find_condition (c.now s.world) old source).0;
          last_reconcile_time = c.now s.world;
        };
      } in
      ground (arith, keeps.update_status-Keeps s.world wrote)

  pub ensure_checks_metadata :
      (names : List String) (s : State W S V B L)
      → (ensure_checks c names s).1.object.metadata ≡ s.object.metadata
  unfolding ensure_checks write_checks
  ensure_checks_metadata names s =
      let wrote = record s.object {
        status = record s.object.status {
          checks = made (add_checks names (entries s.object.status.checks));
        };
      } in
      ground (arith, keeps.update_status-Keeps s.world wrote)

-- What is relied on of controllerutil.RemoveFinalizer: the finalizer is gone, and no other is.
abbrev pub RemovesFinalizer : (List String → String → List String) → Type 0
RemovesFinalizer remove =
    (fs : List String) (f g : String)
    → Any (λ h. h ≡ g) (remove fs f) ↔ (Any (λ h. h ≡ g) fs × (g ≢ f))

module _ {W S V B L : Type 0} (c : Client W S V B) (keeps : Keeps c) {stored : W → Object S V B}
    (stores : Stores c stored) where
  -- With a server that takes what it is sent and stores an update but for the status, and a removal
  -- that takes away the finalizer and no other, the resource that the server has after `Finalize`
  -- has the finalizers that were in memory but the two of the operator.
  pub finalize_lem :
      (s : State W S V B L) (g : String)
      → RemovesFinalizer c.remove_finalizer
      → Any (λ h. h ≡ g) (stored (finalize c s).1.world).metadata.finalizers ↔ (
          (Any (λ h. h ≡ g) s.object.metadata.finalizers × (g ≢ common_finalizer))
          × (g ≢ foreground_finalizer))
  unfolding finalize
  finalize_lem s g removes =
      let present = s.object.metadata.finalizers in
      let fewer = c.remove_finalizer present common_finalizer in
      let left = c.remove_finalizer fewer foreground_finalizer in
      let wrote = record s.object { metadata = record s.object.metadata { finalizers = left } } in
      let kept : (stored (finalize c s).1.world).metadata.finalizers ≡ left =
        ap (λ o. o.metadata.finalizers)
          (stores.update-Stores s.world wrote (keeps.update-Keeps s.world wrote).0) in
      subst
        (λ fs.
          Any (λ h. h ≡ g) fs
          ↔ ((Any (λ h. h ≡ g) present × (g ≢ common_finalizer)) × (g ≢ foreground_finalizer)))
        (sym kept)
        (
          λ p.
              let q = (removes fewer foreground_finalizer g).0 p in
              ((removes present common_finalizer g).0 q.0, q.1),
          λ p.
              (removes fewer foreground_finalizer g).1
                ((removes present common_finalizer g).1 p.0, p.1),
        )
