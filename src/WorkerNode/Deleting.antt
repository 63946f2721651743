-- ===== src/WorkerNode/Deleting.antt =====
-- What keeps a worker node that is being deleted.
use kl_internal_operator.Base.{
  Bool, Option, refl, ◌≡◌, ◌⊎◌, inl, inr, String, true, false, some, none, [], arith,
}
use kl_internal_operator.Exec.{Outcome, returned, ◌>>=◌}
use kl_internal_operator.GoMap.{GoMap}
use kl_internal_operator.Kube.{Error, Result, ok, err, ObjectMeta, new_error}
use kl_internal_operator.StepResult.{Step}
use kl_internal_operator.Request.{Client, after, fail_with_status_error}
use kl_internal_operator.Request.Stopping.{Stops, fail_with_status_error-Stops}
use kl_internal_operator.Request.Converging.{Keeps}
use kl_internal_operator.Request.Keeping.{fail_with_status_error_metadata}
use kl_internal_operator.NodePool.{WorkerNodeSpec}
use kl_internal_operator.WorkerNode.Jobs.{
  NodeJob, get_job_crd, NodeCluster, m_node, get_outputs, get_tf_path,
}
use kl_internal_operator.WorkerNode.Steps.{NodeState, apply_job_of, delete_node, finalize_node}

-- The cluster has the node or does not tell, or terraform has outputs for it.
abbrev pub Remains : {W V B : Type 0} → NodeCluster W → NodeState W V B → Type 0
Remains k s =
    ((node : ObjectMeta) × (k.get_node s.world (m_node s.object.metadata.name) ≡ ok node))
    ⊎ (((e : Error) × ((k.get_node s.world (m_node s.object.metadata.name) ≡ err e)
            × (e.not_found ≡ false)))
        ⊎ ((outputs : GoMap String) × (get_outputs k s.world (get_tf_path k s.object)
              ≡ ok outputs)))

-- The metadata is as it was, and the reconciliation ends.
abbrev pub Waits : {W V B : Type 0} → NodeState W V B → Outcome Step × NodeState W V B → Type 0
Waits s (o, s') = (s'.object.metadata ≡ s.object.metadata) × Stops o

module _ {W V B : Type 0} (c : Client W WorkerNodeSpec V B) (k : NodeCluster W)
    (keeps : Keeps c) where
  fail-Waits :
      (e : Error) (s : NodeState W V B) (w : W)
      → Waits s (fail_with_status_error c (some e) [] (record s { world = w }))
  fail-Waits e s w = (
    fail_with_status_error_metadata c keeps e (record s { world = w }),
    fail_with_status_error-Stops c e [] (record s { world = w }),
  )

  sent-Waits :
      (sent : Option Error) (e : Error) (s : NodeState W V B) (w : W)
      → Waits s (
          after sent
            (λ e. fail_with_status_error c (some e) [])
            (fail_with_status_error c (some e) [])
            (record s { world = w }))
  sent-Waits none e s w = fail-Waits e s w
  sent-Waits (some e') e s w = fail-Waits e' s w

  -- `deleteNode` gives an error, and writes the world at most.
  delete_node_lem :
      (r : Result NodeJob) (s : NodeState W V B)
      → get_job_crd k false s.object s.world ≡ r
      → (e : Error) × (w : W) × (delete_node k s ≡ (returned e, record s { world = w }))
  unfolding delete_node apply_job_of
  delete_node_lem (err e) s found = (e, s.world, ground (arith, found))
  delete_node_lem (ok job) s found = (
    elim (k.apply_job s.world job).0 [ some e ↦ e | none ↦ new_error "node scheduled to delete" ],
    (k.apply_job s.world job).1,
    ground (arith, found),
  )

  delete_node-Waits :
      (s : NodeState W V B)
      → Waits s ((delete_node k >>= λ e. fail_with_status_error c (some e) []) s)
  delete_node-Waits s =
      let (e, w, ran) = delete_node_lem (get_job_crd k false s.object s.world) s refl in
      rw ran (fail-Waits e s w)

  by_error :
      (message : String) (absent : Bool) (outputs : Result (GoMap String)) (s : NodeState W V B)
      → k.get_node s.world (m_node s.object.metadata.name)
        ≡ err (record { message = message; not_found = absent })
      → get_outputs k s.world (get_tf_path k s.object) ≡ outputs
      → Remains k s
      → Waits s (finalize_node c k s)
  unfolding finalize_node
  by_error message false outputs s found there h =
      rw found (fail-Waits (record { message = message; not_found = false }) s s.world)
  by_error message true (ok outputs) s found there h = rw (found, there) (delete_node-Waits s)
  by_error message true (err x) s found there (inl (node, there')) =
      absurd (ground (arith, found, there'))
  by_error message true (err x) s found there (inr (inl (e', (other, told)))) =
      absurd (ground (arith, found, other, told))
  by_error message true (err x) s found there (inr (inr (outputs, there'))) =
      absurd (ground (arith, there, there'))

  by_node :
      (r : Result ObjectMeta) (s : NodeState W V B)
      → k.get_node s.world (m_node s.object.metadata.name) ≡ r
      → Remains k s
      → Waits s (finalize_node c k s)
  unfolding finalize_node
  by_node (ok node) s found h = rw found (sent-Waits (k.delete_node s.world node).0 _ s _)
  by_node (err e) s found h = by_error e.message e.not_found _ s found refl h

  -- While the cluster has the node, or the read of the node fails for another reason than that it
  -- is not there, or terraform has outputs for it, a worker node that is being deleted keeps its
  -- metadata, finalizers included, with a server that keeps what it is sent, and the reconciliation
  -- ends.
  pub finalize_node_waits :
      (s : NodeState W V B)
      → Remains k s
      → ((finalize_node c k s).1.object.metadata ≡ s.object.metadata)
        × Stops (finalize_node c k s).0
  finalize_node_waits s h = by_node _ s refl h
