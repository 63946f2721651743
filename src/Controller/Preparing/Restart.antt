-- ===== src/Controller/Preparing/Restart.antt =====
-- What `RestartIfAnnotated` does to what a resource needs.
use kl_internal_operator.Base.{
  ◌≡◌, refl, ap, ◌∙◌, inl, inr, String, true, false, Bool-cases, arith, string_eq,
}
use kl_internal_operator.Exec.{returned}
use kl_internal_operator.GoMap.{GoMap, entries, delete}
use kl_internal_operator.Request.{
  Client, State, proceed, restart_if_annotated, restart_all, roll_out, restart_key, done,
  restart_args,
}
use kl_internal_operator.Request.Stopping.{restart_all-Stops}
use kl_internal_operator.Request.Converging.{Keeps}
use kl_internal_operator.Controller.Preparing.{
  Wanted, IsSound, needs_checks, needs_clear, needs_restart, needs_labels, needs_finalizers,
}
use kl_internal_operator.Controller.Preparing.Writes
use kl_internal_operator.Controller.Preparing.Common.{Renewed, Renewed-Kept, Advances}

module _ {W S V B L : Type 0} (c : Client W S V B) (keeps : Keeps c) (want : Wanted) where
  restart_all-Renewed :
      (ann : GoMap String) (s : State W S V B L)
      → Renewed s.object
          (record s.object.metadata { annotations = delete ann restart_key })
          (restart_all c ann s).1.object
        × ((restart_all c ann s).1.object.status.checks ≡ s.object.status.checks)
  unfolding restart_all roll_out done
  restart_all-Renewed ann s =
      let m = record s.object.metadata { annotations = delete ann restart_key } in
      let o1 = record s.object { metadata = m } in
      let sent1 = keeps.update-Keeps s.world o1 in
      let args = λ (kind : String). restart_args kind m.namespace (entries (c.ensured_labels o1)) in
      let w1 = (c.kubectl (c.update s.world o1).2 (args "deployments")).1 in
      let w2 = (c.kubectl w1 (args "statefulsets")).1 in
      let o2 = record o1 { status = record o1.status { last_reconcile_time = c.now w2 } } in
      let sent2 = keeps.update_status-Keeps w2 o2 in
      ((ground (arith, sent1, sent2), ground (arith, sent1, sent2)), ground (arith, sent1, sent2))

  restart_all-cases :
      (s : State W S V B L)
      → (needs_restart s.object.metadata.annotations ≡ true
          → restart_if_annotated c s ≡ restart_all c s.object.metadata.annotations s)
        × (needs_restart s.object.metadata.annotations ≡ false
            → restart_if_annotated c s ≡ (returned proceed, s))
  unfolding restart_if_annotated needs_restart
  restart_all-cases s = (λ e. rw e refl, λ e. rw e refl)

  pub restart_if_annotated-Advances :
      (s : State W S V B L) → IsSound want → Advances c keeps want (restart_if_annotated c) s
  restart_if_annotated-Advances s sound =
      let o = s.object in
      let ann = o.metadata.annotations in
      let ((same_spec, metadata), checks) = restart_all-Renewed ann s in
      elim (Bool-cases (needs_restart ann)) [
        | inr e ↦ inl ((restart_all-cases s).1 e)
        | inl e ↦ rw ((restart_all-cases s).0 e) (
            inr (
              restart_all-Stops c ann s,
              Renewed-Kept o _ _ (same_spec, metadata) refl refl,
              Writes.less_restart _ _ _ _ _ _ _ _ _ _ e
                  (ap (λ m. needs_restart m.annotations) metadata
                    ∙ Writes.needs_restart-deleted want ann)
                  (ap (λ m. needs_clear m.annotations) metadata
                    ∙ Writes.needs_clear-restarted want ann)
                  (ap (needs_checks want.names) checks)
                  (ap (λ m. needs_labels want m.labels m.annotations) metadata
                    ∙ Writes.needs_labels-delete want o.metadata.labels ann restart_key
                        sound.restart-apart)
                  (ap (λ m. needs_finalizers m.finalizers) metadata),
            ))
      ]
