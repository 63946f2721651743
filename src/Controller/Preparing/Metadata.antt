-- ===== src/Controller/Preparing/Metadata.antt =====
-- What `EnsureLabelsAndAnnotations` and `EnsureFinalizers` do to what a resource needs.
use kl_internal_operator.Base.{
  ◌≡◌, refl, ap, ◌∙◌, inl, inr, String, true, false, List, Bool-cases, arith, string_eq,
}
use kl_internal_operator.Exec.{returned}
use kl_internal_operator.GoMap.{made}
use kl_internal_operator.StepResult.{new, with_err, should_proceed}
use kl_internal_operator.Operator.{Object}
use kl_internal_operator.Request.{
  Client, State, proceed, ensure_labels_and_annotations, ensure_finalizers, write_finalizers,
  add_finalizers,
}
use kl_internal_operator.Request.Stopping.{Stops}
use kl_internal_operator.Request.Converging.{Keeps, AddsFinalizer}
use kl_internal_operator.Controller.Preparing.{
  own_finalizers, Wanted, IsSound, needs_checks, needs_clear, needs_restart, needs_labels,
  needs_finalizers,
}
use kl_internal_operator.Controller.Preparing.Writes
use kl_internal_operator.Controller.Preparing.Common.{Renewed-Kept, Advances}

-- The object after the labels and annotations were written.
labels_written : {S V B : Type 0} → Wanted → Object S V B → Object S V B
labels_written want o = record o {
  metadata = record o.metadata {
    labels = Writes.with_wanted want o.metadata.labels want.labels;
    annotations = Writes.with_wanted want o.metadata.annotations want.annotations;
  };
}

-- The object after the finalizers were written.
finalizers_written :
    {S V B : Type 0} → (List String → String → List String) → Object S V B → Object S V B
finalizers_written add o = record o {
  metadata = record o.metadata {
    finalizers = add_finalizers add o.metadata.finalizers own_finalizers;
  };
}

module _ {W S V B L : Type 0} (c : Client W S V B) (keeps : Keeps c) (want : Wanted) where
  ensure_labels-cases :
      (s : State W S V B L)
      → c.ensured_labels s.object ≡ made want.labels
      → c.ensured_annotations s.object ≡ made want.annotations
      → (needs_labels want s.object.metadata.labels s.object.metadata.annotations ≡ true
          → Stops (ensure_labels_and_annotations c s).0
            × ((ensure_labels_and_annotations c s).1.object ≡ labels_written want s.object))
        × (needs_labels want s.object.metadata.labels s.object.metadata.annotations ≡ false
            → ensure_labels_and_annotations c s ≡ (returned proceed, s))
  unfolding ensure_labels_and_annotations needs_labels labels_written should_proceed new with_err
  ensure_labels-cases s labels annotations =
      let sent = keeps.update-Keeps s.world (labels_written want s.object) in
      (
        λ e. rw (labels, annotations, e) (ground (arith, sent), ground (arith, sent)),
        λ e. rw (labels, annotations, e) refl,
      )

  pub ensure_labels-Advances :
      (s : State W S V B L)
      → IsSound want
      → c.ensured_labels s.object ≡ made want.labels
      → c.ensured_annotations s.object ≡ made want.annotations
      → Advances c keeps want (ensure_labels_and_annotations c) s
  unfolding labels_written
  ensure_labels-Advances s sound labels annotations =
      let o = s.object in
      let m = o.metadata in
      let cases = ensure_labels-cases s labels annotations in
      elim (Bool-cases (needs_labels want m.labels m.annotations)) [
        | inr e ↦ inl (cases.1 e)
        | inl e ↦
            let (stops, wrote) = cases.0 e in
            inr (
              stops,
              Renewed-Kept o _ (labels_written want o).metadata
                  (ap (λ o. o.spec) wrote, ap (λ o. o.metadata) wrote) refl refl,
              Writes.less_labels _ _ _ _ _ _ _ _ _ _ e
                  (ap (λ o. needs_labels want o.metadata.labels o.metadata.annotations) wrote
                    ∙ Writes.needs_labels-written want m.labels m.annotations sound)
                  (ap (λ o. needs_clear o.metadata.annotations) wrote
                    ∙ Writes.needs_clear-written want m.annotations sound)
                  (ap (λ o. needs_checks want.names o.status.checks) wrote)
                  (ap (λ o. needs_restart o.metadata.annotations) wrote
                    ∙ Writes.needs_restart-written want m.annotations sound)
                  (ap (λ o. needs_finalizers o.metadata.finalizers) wrote),
            )
      ]

  ensure_finalizers-cases :
      (s : State W S V B L)
      → (needs_finalizers s.object.metadata.finalizers ≡ true
          → Stops (ensure_finalizers c own_finalizers s).0
            × ((ensure_finalizers c own_finalizers s).1.object
                ≡ finalizers_written c.add_finalizer s.object))
        × (needs_finalizers s.object.metadata.finalizers ≡ false
            → ensure_finalizers c own_finalizers s ≡ (returned proceed, s))
  unfolding ensure_finalizers write_finalizers needs_finalizers finalizers_written should_proceed
      new
  ensure_finalizers-cases s =
      let sent = keeps.update-Keeps s.world (finalizers_written c.add_finalizer s.object) in
      (λ e. rw e (ground (arith, sent), ground (arith, sent)), λ e. rw e refl)

  pub ensure_finalizers-Advances :
      (s : State W S V B L)
      → AddsFinalizer c.add_finalizer
      → Advances c keeps want (ensure_finalizers c own_finalizers) s
  unfolding finalizers_written
  ensure_finalizers-Advances s adds =
      let o = s.object in
      let m = o.metadata in
      let cases = ensure_finalizers-cases s in
      elim (Bool-cases (needs_finalizers m.finalizers)) [
        | inr e ↦ inl (cases.1 e)
        | inl e ↦
            let (stops, wrote) = cases.0 e in
            inr (
              stops,
              Renewed-Kept o _ (finalizers_written c.add_finalizer o).metadata
                  (ap (λ o. o.spec) wrote, ap (λ o. o.metadata) wrote) refl refl,
              Writes.less_finalizers _ _ _ _ _ _ _ _ _ _ e
                  (ap (λ o. needs_finalizers o.metadata.finalizers) wrote
                    ∙ Writes.needs_finalizers-written c.add_finalizer m.finalizers adds)
                  (ap (λ o. needs_clear o.metadata.annotations) wrote)
                  (ap (λ o. needs_checks want.names o.status.checks) wrote)
                  (ap (λ o. needs_restart o.metadata.annotations) wrote)
                  (ap (λ o. needs_labels want o.metadata.labels o.metadata.annotations) wrote),
            )
      ]
