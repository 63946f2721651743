-- ===== src/Controller/Preparing/Checks.antt =====
-- What `EnsureChecks` and `ClearStatusIfAnnotated` do to what a resource needs.
use kl_internal_operator.Base.{
  ◌≡◌, refl, ap, ◌∙◌, inl, inr, String, true, false, Bool-cases, arith, string_eq,
}
use kl_internal_operator.Exec.{returned}
use kl_internal_operator.GoMap.{GoMap, made, entries, delete}
use kl_internal_operator.Request.{
  Client, State, proceed, ensure_checks, write_checks, clear_status_if_annotated, clear_status,
  reset_status, add_checks, clear_status_key, done, cleared,
}
use kl_internal_operator.Request.Stopping.{Stops, write_checks-Stops, clear_status-Stops}
use kl_internal_operator.Request.Converging.{Keeps, entries-ensure_checks}
use kl_internal_operator.Request.Keeping.{ensure_checks_metadata}
use kl_internal_operator.Controller.Preparing.{
  Wanted, IsSound, needs_checks, needs_clear, needs_restart, needs_labels, needs_finalizers,
}
use kl_internal_operator.Controller.Preparing.Writes
use kl_internal_operator.Controller.Preparing.Common.{Renewed, Renewed-Kept, Advances}

module _ {W S V B L : Type 0} (c : Client W S V B) (keeps : Keeps c) (want : Wanted) where
  ensure_checks-same_spec :
      (s : State W S V B L) → (ensure_checks c want.names s).1.object.spec ≡ s.object.spec
  unfolding ensure_checks write_checks
  ensure_checks-same_spec s =
      let wrote = record s.object {
        status = record s.object.status {
          checks = made (add_checks want.names (entries s.object.status.checks));
        };
      } in
      ground (arith, keeps.update_status-Keeps s.world wrote)

  ensure_checks-cases :
      (s : State W S V B L)
      → (needs_checks want.names s.object.status.checks ≡ true
          → Stops (ensure_checks c want.names s).0)
        × (needs_checks want.names s.object.status.checks ≡ false
            → ensure_checks c want.names s ≡ (returned proceed, s))
  unfolding ensure_checks needs_checks
  ensure_checks-cases s = (
    λ e. rw e (write_checks-Stops c (add_checks want.names (entries s.object.status.checks)) s),
    λ e. rw e refl,
  )

  pub ensure_checks-Advances :
      (s : State W S V B L) → Advances c keeps want (ensure_checks c want.names) s
  ensure_checks-Advances s =
      let o = s.object in
      let metadata = ensure_checks_metadata c keeps want.names s in
      elim (Bool-cases (needs_checks want.names o.status.checks)) [
        | inr e ↦ inl ((ensure_checks-cases s).1 e)
        | inl e ↦ inr (
          (ensure_checks-cases s).0 e,
          Renewed-Kept o _ o.metadata (ensure_checks-same_spec s, metadata) refl refl,
          Writes.less_checks _ _ _ _ _ _ _ _ _ _ e
              (Writes.needs_checks-written want o.status.checks _
                (entries-ensure_checks c keeps want.names s))
              (ap (λ m. needs_clear m.annotations) metadata)
              (ap (λ m. needs_restart m.annotations) metadata)
              (ap (λ m. needs_labels want m.labels m.annotations) metadata)
              (ap (λ m. needs_finalizers m.finalizers) metadata),
        )
      ]

  clear_status-Renewed :
      (ann : GoMap String) (s : State W S V B L)
      → Renewed s.object
          (record s.object.metadata { annotations = delete ann clear_status_key })
          (clear_status c ann s).1.object
  unfolding clear_status reset_status done
  clear_status-Renewed ann s =
      let m = record s.object.metadata { annotations = delete ann clear_status_key } in
      let o1 = record s.object { metadata = m } in
      let w1 = (c.update s.world o1).2 in
      let o2 = record o1 { status = cleared (c.now w1) o1.status } in
      let w2 = (c.update_status w1 o2).2 in
      let o3 = record o2 { status = record o2.status { last_reconcile_time = c.now w2 } } in
      let sent1 = keeps.update-Keeps s.world o1 in
      let sent2 = keeps.update_status-Keeps w1 o2 in
      let sent3 = keeps.update_status-Keeps w2 o3 in
      (ground (arith, sent1, sent2, sent3), ground (arith, sent1, sent2, sent3))

  clear_status-cases :
      (s : State W S V B L)
      → (needs_clear s.object.metadata.annotations ≡ true
          → clear_status_if_annotated c s ≡ clear_status c s.object.metadata.annotations s)
        × (needs_clear s.object.metadata.annotations ≡ false
            → clear_status_if_annotated c s ≡ (returned proceed, s))
  unfolding clear_status_if_annotated needs_clear
  clear_status-cases s = (λ e. rw e refl, λ e. rw e refl)

  pub clear_status_if_annotated-Advances :
      (s : State W S V B L) → IsSound want → Advances c keeps want (clear_status_if_annotated c) s
  clear_status_if_annotated-Advances s sound =
      let o = s.object in
      let ann = o.metadata.annotations in
      let (same_spec, metadata) = clear_status-Renewed ann s in
      elim (Bool-cases (needs_clear ann)) [
        | inr e ↦ inl ((clear_status-cases s).1 e)
        | inl e ↦ rw ((clear_status-cases s).0 e) (
            inr (
              clear_status-Stops c ann s,
              Renewed-Kept o _ _ (same_spec, metadata) refl refl,
              Writes.less_clear _ _ _ _ _ _ _ _ _ _ e
                  (ap (λ m. needs_clear m.annotations) metadata
                    ∙ Writes.needs_clear-deleted want ann)
                  (ap (λ m. needs_restart m.annotations) metadata
                    ∙ Writes.needs_restart-cleared want ann)
                  (ap (λ m. needs_labels want m.labels m.annotations) metadata
                    ∙ Writes.needs_labels-delete want o.metadata.labels ann clear_status_key
                        sound.clear_status-apart)
                  (ap (λ m. needs_finalizers m.finalizers) metadata),
            ))
      ]
