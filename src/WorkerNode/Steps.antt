-- ===== src/WorkerNode/Steps.antt =====
-- controllers/infra/workernode_controller.go: the steps of the controller of worker nodes.
use Prim.Native.String.{◌++◌ as ◌<>◌}
use kl_internal_operator.Base.{
  String, Bool, true, false, not, Option, none, some, [], ◌!=◌, string_eq, if◌then◌else◌,
}
use kl_internal_operator.Base.Integers.{ℤ}
use kl_internal_operator.Exec.{Exec, pure, gets, modify, panic, or_panic, act, ◌>>=◌, ◌>>◌}
use kl_internal_operator.GoMap.{GoMap, get, assign}
use kl_internal_operator.Kube.{Error, ok, err, ObjectMeta, new_error}
use kl_internal_operator.Functions.{or_zero}
use kl_internal_operator.StepResult.{Step}
use kl_internal_operator.Operator.{Object, get_local, set_local}
use kl_internal_operator.Request.{
  on_world, Client, State, after, proceed, finalize, fail_with_status_error,
}
use kl_internal_operator.Request.Reports.{fail_check, pass_check}
use kl_internal_operator.NodePool.{WorkerNodeSpec}
use kl_internal_operator.WorkerNode.Jobs.{
  NodeCluster, main_ns, m_node, job_name, get_outputs, get_output, get_tf_path, get_job_crd,
}

abbrev pub node_created : String
node_created = "node-created"

abbrev pub node_attached : String
node_attached = "node-attached"

abbrev pub stateful_label : String
stateful_label = "kloudlite.io/stateful-node"

-- fmt.Sprint of a Boolean
abbrev pub print_bool : Bool → String
print_bool true = "true"
print_bool false = "false"

-- What the scratch map holds: the data of the secret of the cluster.
abbrev pub NodeState : Type 0 → Type 0 → Type 0 → Type 0
NodeState W V B = State W WorkerNodeSpec V B (GoMap String)

-- The two labels of the map may come in either order.
abbrev pub node_labels : (ℤ → String) → WorkerNodeSpec → String → String
node_labels print spec ip =
    "--node-label kloudlite.io/region="
    <> (spec.edge_name
        <> (" --node-label kloudlite.io/node.index="
            <> (print spec.index <> (" --node-label kloudlite.io/public-ip=" <> ip))))

module _ {W V B : Type 0} (k : NodeCluster W) where
  unfoldable pub fetch_kube_config : Exec (NodeState W V B) Step
  fetch_kube_config = do
    s ← gets (λ s. s)
    elim (k.get_secret s.world main_ns ("cluster-kubeconfig-" <> s.object.spec.cluster_name)) [
      | err e ↦ pure proceed
      | ok conf ↦ (do
        modify (λ s. record s { locals = set_local s.locals "kubeconfig-sec" conf })
        pure proceed)
    ]

  unfoldable pub apply_job_of : Bool → Exec (NodeState W V B) (Option Error)
  apply_job_of create = do
    s ← gets (λ s. s)
    elim (get_job_crd k create s.object s.world) [
      | err e ↦ pure (some e)
      | ok job ↦ act (λ s. let (e, w) = k.apply_job s.world job in (e, record s { world = w }))
    ]

  -- Any error of the read of the job counts as no job.
  unfoldable pub create_node : Exec (NodeState W V B) (Option Error)
  unfolding apply_job_of
  create_node = do
    s ← gets (λ s. s)
    elim (k.get_job s.world (job_name true s.object.metadata.name)) [
      | none ↦ pure (some (new_error "creation of node is in progress"))
      | some e ↦ apply_job_of true
    ]

  -- `deleteNode` never succeeds.
  unfoldable pub delete_node : Exec (NodeState W V B) Error
  unfolding apply_job_of
  delete_node = do
    sent ← apply_job_of false
    pure (elim sent [ some e ↦ e | none ↦ new_error "node scheduled to delete" ])

  unfoldable pub attach_command : Object WorkerNodeSpec V B → GoMap String → String → String
  attach_command o conf ip =
      "ssh -o StrictHostKeyChecking=no -o UserKnownHostsFile=/dev/null -i "
      <> (k.env.ssh_path
          <> (" root@"
              <> (ip
                  <> (" sudo sh /tmp/k3s-install.sh agent --token="
                      <> (k.trim_space (or_zero "" (get conf "node-token"))
                          <> (" --server https://"
                              <> (or_zero "" (get conf "master-node-ip")
                                  <> (":6443 --node-external-ip "
                                      <> (ip
                                          <> (" --node-name "
                                              <> (m_node o.metadata.name
                                                  <> (" "
                                                      <> node_labels k.print o.spec ip))))))))))))

  unfoldable pub attach_node : Exec (NodeState W V B) (Option Error)
  attach_node = do
    s ← gets (λ s. s)
    elim (get_local (λ conf. some conf) s.locals "kubeconfig-sec") [
      | none ↦ pure (some (new_error "cluster config not found in secret"))
      | some conf ↦ elim (get_output k s.world (get_tf_path k s.object) "node-ip") [
        | err e ↦ pure (some e)
        | ok ip ↦ act (λ s.
            let (e, w) = k.exec_cmd s.world (attach_command s.object conf ip) in
            (e, record s { world = w }))
      ]
    ]

module _ {W V B : Type 0} (c : Client W WorkerNodeSpec V B) (k : NodeCluster W) where
  -- The job is deleted when there is one, and the check passes.
  unfoldable pub clean_job : Exec (NodeState W V B) Step
  clean_job = do
    s ← gets (λ s. s)
    let name = job_name true s.object.metadata.name
    elim (k.get_job s.world name) [
      | some e ↦ pass_check c node_created
      | none ↦ (do
        sent ← on_world (λ w. k.delete_job w name)
        after sent (λ e. fail_check c node_created e.message) (pass_check c node_created))
    ]

  unfoldable pub ensure_node_created : Exec (NodeState W V B) Step
  unfolding clean_job
  ensure_node_created = do
    s ← gets (λ s. s)
    elim (get_outputs k s.world (get_tf_path k s.object)) [
      | ok outputs ↦ clean_job
      | err e ↦ (do
        sent ← create_node k
        after sent (λ e. fail_check c node_created e.message) clean_job)
    ]

  -- A nil map of labels is written: a panic.
  unfoldable pub write_label : ObjectMeta → Exec (NodeState W V B) Step
  write_label node = do
    s ← gets (λ s. s)
    labels ← or_panic (assign node.labels stateful_label (print_bool s.object.spec.stateful))
    sent ← on_world (λ w. k.update_node w (record node { labels = labels }))
    after sent (λ e. fail_check c node_attached e.message) (pass_check c node_attached)

  unfoldable pub label_node : ObjectMeta → Exec (NodeState W V B) Step
  label_node node = do
    s ← gets (λ s. s)
    elim (get node.labels stateful_label) [
      | none ↦ write_label node
      | some text ↦
          if text != print_bool s.object.spec.stateful
          then write_label node
          else pass_check c node_attached
    ]

  -- A node that was attached just now is not read again: its labels are those of a nil pointer.
  unfoldable pub ensure_node_attached : Exec (NodeState W V B) Step
  unfolding label_node
  ensure_node_attached = do
    s ← gets (λ s. s)
    elim (k.get_node s.world (m_node s.object.metadata.name)) [
      | ok node ↦ label_node node
      | err e ↦ if not e.not_found then fail_check c node_attached e.message else (do
        sent ← attach_node k
        after sent (λ e. fail_check c node_attached e.message) panic)
    ]

  -- Any error of terraform counts as no output.
  unfoldable pub finalize_node : Exec (NodeState W V B) Step
  finalize_node = do
    s ← gets (λ s. s)
    elim (k.get_node s.world (m_node s.object.metadata.name)) [
      | ok node ↦ (do
        sent ← on_world (λ w. k.delete_node w node)
        after sent (λ e. fail_with_status_error c (some e) [])
            (fail_with_status_error c (some (new_error "detaching node from cluster")) []))
      | err e ↦
          if not e.not_found
          then fail_with_status_error c (some e) []
          else elim (get_outputs k s.world (get_tf_path k s.object)) [
            | ok outputs ↦ (do e ← delete_node k; fail_with_status_error c (some e) [])
            | err e ↦ finalize c
          ]
    ]
