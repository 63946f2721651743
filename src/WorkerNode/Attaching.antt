-- ===== src/WorkerNode/Attaching.antt =====
-- When a worker node counts as attached to the cluster.
use kl_internal_operator.Base.{
  ◌≡◌, ◌⊎◌, inl, inr, refl, String, not, Option, none, some, arith, ◌!=◌, string_eq, Bool-cases,
  text_beq_iff,
}
use kl_internal_operator.Exec.{Outcome, returned, panicked, panic, ◌>>=◌}
use kl_internal_operator.GoMap.{GoMap, get, assign}
use kl_internal_operator.Kube.{Error, Result, ok, err, ObjectMeta}
use kl_internal_operator.StepResult.{Step}
use kl_internal_operator.Request.{Client, after}
use kl_internal_operator.Request.Stopping.{Proceeds}
use kl_internal_operator.Request.Reports.{
  Blocks, fail_check, fail_check-Blocks, resume-Blocks, if-Blocks, pass_check,
}
use kl_internal_operator.NodePool.{WorkerNodeSpec}
use kl_internal_operator.WorkerNode.Jobs.{NodeCluster, m_node}
use kl_internal_operator.WorkerNode.Steps.{
  NodeState, attach_node, ensure_node_attached, label_node, write_label, node_attached, print_bool,
  stateful_label,
}

Blocks-Proceeds : (o : Outcome Step) → Blocks o → Proceeds o → ⊥
Blocks-Proceeds (returned st) b p = b p
Blocks-Proceeds panicked b p = p

module _ {W V B : Type 0} (c : Client W WorkerNodeSpec V B) (k : NodeCluster W) where
  -- The node has the label of the worker node, or it was written without an error.
  abbrev pub IsLabelled : NodeState W V B → ObjectMeta → Type 0
  IsLabelled s node =
      let text = print_bool s.object.spec.stateful in
      (get node.labels stateful_label ≡ some text)
      ⊎ ((labels : GoMap String) × (assign node.labels stateful_label text ≡ some labels)
          × ((k.update_node s.world (record node { labels = labels })).0 ≡ none))

  -- The cluster has the node, labelled.
  abbrev pub IsAttached : NodeState W V B → Type 0
  IsAttached s =
      (node : ObjectMeta) × (k.get_node s.world (m_node s.object.metadata.name) ≡ ok node)
      × IsLabelled s node

  attached_now-Blocks :
      (sent : Option Error) (s : NodeState W V B)
      → Blocks (after sent (λ e. fail_check c node_attached e.message) panic s).0
  attached_now-Blocks none s = tt
  attached_now-Blocks (some e) s = fail_check-Blocks c node_attached e.message s

  sent_none :
      (sent : Option Error) (s : NodeState W V B)
      → Proceeds
          (after sent (λ e. fail_check c node_attached e.message) (pass_check c node_attached) s).0
      → sent ≡ none
  sent_none none s p = refl
  sent_none (some e) s p =
      absurd (Blocks-Proceeds _ (fail_check-Blocks c node_attached e.message s) p)

  written :
      (o : Option (GoMap String)) (s : NodeState W V B) (node : ObjectMeta)
      → assign node.labels stateful_label (print_bool s.object.spec.stateful) ≡ o
      → Proceeds (write_label c k node s).0
      → IsLabelled s node
  unfolding write_label
  written none s node e p = absurd (rw e at p)
  written (some labels) s node e p =
      let sent = (k.update_node s.world (record node { labels = labels })).0 in
      inr (labels, e, sent_none sent _ (rw e at p))

  labelled :
      (o : Option String) (s : NodeState W V B) (node : ObjectMeta)
      → get node.labels stateful_label ≡ o
      → Proceeds (label_node c k node s).0
      → IsLabelled s node
  unfolding label_node
  labelled none s node e p = written _ s node refl (rw e at p)
  labelled (some text) s node e p = elim (Bool-cases (text != print_bool s.object.spec.stateful)) [
    | inl differs ↦ written _ s node refl (rw (e, differs) at p)
    | inr same ↦
        inl (ground (arith, e, same, text_beq_iff text (print_bool s.object.spec.stateful)))
  ]

  by_node :
      (r : Result ObjectMeta) (s : NodeState W V B)
      → k.get_node s.world (m_node s.object.metadata.name) ≡ r
      → Proceeds (ensure_node_attached c k s).0
      → IsAttached s
  unfolding ensure_node_attached
  by_node (err e) s found p = absurd (
      Blocks-Proceeds _
        (if-Blocks (not e.not_found) (fail_check c node_attached e.message)
          (attach_node k >>= λ sent. after sent (λ e. fail_check c node_attached e.message) panic) s
          (fail_check-Blocks c node_attached e.message s)
          (resume-Blocks (attach_node k s).0 _ (attach_node k s).1 attached_now-Blocks))
        (rw found at p))
  by_node (ok node) s found p = (node, found, labelled _ s node refl (rw found at p))

  -- The step of the attachment lets the reconciliation go on only when the cluster had the node
  -- before it, and the node had the label of the worker node, or the label was written and the
  -- update ended without an error.
  pub ensure_node_attached-IsAttached :
      (s : NodeState W V B) → Proceeds (ensure_node_attached c k s).0 → IsAttached s
  ensure_node_attached-IsAttached s p = by_node _ s refl p
