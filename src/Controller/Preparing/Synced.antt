-- ===== src/Controller/Preparing/Synced.antt =====
-- After each of the common steps the server has the resource that is in memory.
use kl_internal_operator.Base.{◌≡◌, ◌∙◌, ap, String, List, arith, string_eq}
use kl_internal_operator.GoMap.{GoMap, made, entries, delete, insert_all}
use kl_internal_operator.Operator.{Object}
use kl_internal_operator.Request.{
  Client, State, ensure_checks, write_checks, clear_status_if_annotated, clear_status, reset_status,
  restart_if_annotated, restart_all, roll_out, ensure_labels_and_annotations, ensure_finalizers,
  write_finalizers, add_checks, add_finalizers, clear_status_key, restart_key, restart_args, done,
  cleared,
}
use kl_internal_operator.Request.Converging.{Keeps, Stores}

module _ {W S V B : Type 0} (c : Client W S V B) (keeps : Keeps c) {stored : W → Object S V B}
    (stores : Stores c stored) where
  -- An update leaves the server and the memory with one resource, if the status is the stored one.
  updated :
      (w : W) (o : Object S V B)
      → (stored w).status ≡ o.status
      → stored (c.update w o).2 ≡ (c.update w o).1
  updated w o same =
      let (taken, back) = keeps.update-Keeps w o in
      ground (arith, same, back, stores.update-Stores w o taken)

  -- An update of the status does, if the rest is the stored one.
  status_updated :
      (w : W) (o : Object S V B)
      → (stored w).metadata ≡ o.metadata
      → (stored w).spec ≡ o.spec
      → stored (c.update_status w o).2 ≡ (c.update_status w o).1
  status_updated w o metadata spec =
      let (taken, back) = keeps.update_status-Keeps w o in
      ground (arith, metadata, spec, back, stores.update_status-Stores w o taken)

module _ {W S V B L : Type 0} (c : Client W S V B) (keeps : Keeps c) {stored : W → Object S V B}
    (stores : Stores c stored) where
  -- The server has the resource that is in memory.
  abbrev pub Synced : State W S V B L → Type 0
  Synced s = stored s.world ≡ s.object

  pub ensure_checks-Synced :
      (names : List String) (s : State W S V B L) → Synced s → Synced (ensure_checks c names s).1
  unfolding ensure_checks write_checks
  ensure_checks-Synced names s synced =
      let wrote = record s.object {
        status = record s.object.status {
          checks = made (add_checks names (entries s.object.status.checks));
        };
      } in
      ground (
        arith,
        synced,
        keeps.update_status-Keeps s.world wrote,
        status_updated c keeps stores s.world wrote (ap (λ o. o.metadata) synced)
            (ap (λ o. o.spec) synced),
      )

  clear_status-Synced :
      (ann : GoMap String) (s : State W S V B L) → Synced s → Synced (clear_status c ann s).1
  unfolding clear_status reset_status done
  clear_status-Synced ann s synced =
      let m = record s.object.metadata { annotations = delete ann clear_status_key } in
      let o1 = record s.object { metadata = m } in
      let w1 = (c.update s.world o1).2 in
      let o2 = record o1 { status = cleared (c.now w1) o1.status } in
      let w2 = (c.update_status w1 o2).2 in
      let o3 = record o2 { status = record o2.status { last_reconcile_time = c.now w2 } } in
      let sent1 = keeps.update-Keeps s.world o1 in
      let sent2 = keeps.update_status-Keeps w1 o2 in
      let sent3 = keeps.update_status-Keeps w2 o3 in
      let at1 : stored w1 ≡ o1 =
        updated c keeps stores s.world o1 (ap (λ o. o.status) synced) ∙ sent1.1 in
      let at2 : stored w2 ≡ o2 =
        status_updated c keeps stores w1 o2 (ap (λ o. o.metadata) at1) (ap (λ o. o.spec) at1)
        ∙ sent2.1 in
      let at3 =
        status_updated c keeps stores w2 o3 (ap (λ o. o.metadata) at2) (ap (λ o. o.spec) at2) in
      ground (arith, sent1, sent2, sent3, at3)

  restart_all-Synced :
      (ann : GoMap String) (s : State W S V B L) → Synced s → Synced (restart_all c ann s).1
  unfolding restart_all roll_out done
  restart_all-Synced ann s synced =
      let m = record s.object.metadata { annotations = delete ann restart_key } in
      let o1 = record s.object { metadata = m } in
      let sent1 = keeps.update-Keeps s.world o1 in
      let args = λ (kind : String). restart_args kind m.namespace (entries (c.ensured_labels o1)) in
      let w0 = (c.update s.world o1).2 in
      let w1 = (c.kubectl w0 (args "deployments")).1 in
      let w2 = (c.kubectl w1 (args "statefulsets")).1 in
      let o2 = record o1 { status = record o1.status { last_reconcile_time = c.now w2 } } in
      let sent2 = keeps.update_status-Keeps w2 o2 in
      let at2 : stored w2 ≡ o1 =
        stores.kubectl-Stores w1 (args "statefulsets")
        ∙ stores.kubectl-Stores w0 (args "deployments")
        ∙ updated c keeps stores s.world o1 (ap (λ o. o.status) synced)
        ∙ sent1.1 in
      let at3 =
        status_updated c keeps stores w2 o2 (ap (λ o. o.metadata) at2) (ap (λ o. o.spec) at2) in
      ground (arith, sent1, sent2, at3)

  pub clear_status_if_annotated-Synced :
      (s : State W S V B L) → Synced s → Synced (clear_status_if_annotated c s).1
  unfolding clear_status_if_annotated
  clear_status_if_annotated-Synced s synced =
      ground (arith, synced, clear_status-Synced s.object.metadata.annotations s synced)

  pub restart_if_annotated-Synced :
      (s : State W S V B L) → Synced s → Synced (restart_if_annotated c s).1
  unfolding restart_if_annotated
  restart_if_annotated-Synced s synced =
      ground (arith, synced, restart_all-Synced s.object.metadata.annotations s synced)

  pub ensure_labels-Synced :
      (s : State W S V B L) → Synced s → Synced (ensure_labels_and_annotations c s).1
  unfolding ensure_labels_and_annotations
  ensure_labels-Synced s synced =
      let m = s.object.metadata in
      let wrote = record s.object {
        metadata = record m {
          labels = made (insert_all (entries (c.ensured_labels s.object)) (entries m.labels));
          annotations =
              made (insert_all (entries (c.ensured_annotations s.object)) (entries m.annotations));
        };
      } in
      ground (arith, synced, updated c keeps stores s.world wrote (ap (λ o. o.status) synced))

  pub ensure_finalizers-Synced :
      (finalizers : List String) (s : State W S V B L)
      → Synced s
      → Synced (ensure_finalizers c finalizers s).1
  unfolding ensure_finalizers write_finalizers
  ensure_finalizers-Synced finalizers s synced =
      let all = add_finalizers c.add_finalizer s.object.metadata.finalizers finalizers in
      let wrote = record s.object { metadata = record s.object.metadata { finalizers = all } } in
      ground (
        arith,
        synced,
        keeps.update-Keeps s.world wrote,
        updated c keeps stores s.world wrote (ap (λ o. o.status) synced),
      )
