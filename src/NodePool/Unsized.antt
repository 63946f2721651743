-- ===== src/NodePool/Unsized.antt =====
-- What the controller does with a pool of a provider other than "aws".
use kl_internal_operator.Base.{
  ap, if◌then◌else◌, ◌≡◌, ◌≢◌, refl, String, List, [], ◌∷◌, length, All, arith, some, text_beq_iff,
  string_eq, ◌==◌, length-map,
}
use kl_internal_operator.Base.Integers.{ℤ, pos, ◌<ℤ◌, ◌*ℤ◌, wrap, int_eq}
use kl_internal_operator.Exec.{returned}
use kl_internal_operator.Kube.{ok}
use kl_internal_operator.Operator.{get_local}
use kl_internal_operator.Request.{Client, State, after, done}
use kl_internal_operator.Resources.{Res}
use kl_internal_operator.Scale
use kl_internal_operator.Scale.Stability.{calculate-Unsized}
use kl_internal_operator.NodePool.{
  NodePoolSpec, WorkerNode, IDetails, get_resource_size, scale_nodes,
}
use kl_internal_operator.NodePool.Steps.{
  Cluster, region_key, scale_input, decide, run_action, run_add_node, new_worker_node, failed,
  recon_worker_nodes,
}

scale_nodes-Unsized :
    (instance_type : String → String) (details : IDetails) (nodes : List WorkerNode)
    → All (λ n. n.spec.provider ≢ "aws") nodes
    → All (λ n. n.size.memory ≡ pos 0) (scale_nodes instance_type details nodes)
unfolding scale_nodes get_resource_size ◌*ℤ◌ wrap
scale_nodes-Unsized instance_type details [] h = tt
scale_nodes-Unsized instance_type details (n ∷ nodes) h = (
  ground (arith, h.0, text_beq_iff n.spec.provider "aws"),
  scale_nodes-Unsized instance_type details nodes h.1,
)

count-scale_nodes :
    (instance_type : String → String) (details : IDetails) (nodes : List WorkerNode)
    → length (scale_nodes instance_type details nodes) ≡ length nodes
unfolding scale_nodes
count-scale_nodes instance_type details nodes = length-map _ nodes

-- The step takes the decision of `Calculate`; the count behind it comes back always.
decide_add_node :
    {W V B : Type 0} (c : Client W NodePoolSpec V B) (k : Cluster W) (i : Scale.Input)
    (r : Scale.Reason) (s : State W NodePoolSpec V B IDetails)
    → (Scale.calculate i).0 ≡ returned (Scale.add_node, r)
    → (count : ℤ) × (decide c k i s ≡ (returned (Scale.add_node, count), s))
unfolding decide Scale.get_stateful_count
decide_add_node c k i r s e =
    let i' = (Scale.calculate i).1 in
    (
      if i'.stateful_count == pos 0 then pos (Scale.count_stateful i'.nodes) else i'.stateful_count,
      ground (arith, e),
    )

module _ {W V B : Type 0} (c : Client W NodePoolSpec V B) (k : Cluster W) where
  -- If the worker nodes, the instance details and both totals are there, no worker node of the edge
  -- is of the provider "aws", the pods of the edge request some memory, and the pool has fewer
  -- nodes than its maximum, then the step asks the API server, once, to create one more worker
  -- node, with a new name, and ends with `Done` or, if that fails, with the failed check; however
  -- many nodes the pool has for that memory.
  pub recon_worker_nodes-Unsized :
      (s : State W NodePoolSpec V B IDetails) (nodes : List WorkerNode) (details : IDetails)
      (total stateful : Res)
      → k.list_worker_nodes s.world s.object.spec.edge_name ≡ ok nodes
      → get_local some s.locals "instance-details" ≡ some details
      → k.pod_request s.world ((region_key, s.object.spec.edge_name) ∷ []) "requests" ≡ ok total
      → k.pod_request s.world
          ((region_key, s.object.spec.edge_name) ∷ ("kloudlite.io/stateful-node", "true") ∷ [])
          "requests"
        ≡ ok stateful
      → All (λ n. n.spec.provider ≢ "aws") nodes
      → pos 0 <ℤ total.memory
      → pos (length nodes) <ℤ s.object.spec.max
      → let (name, w) = k.new_uuid s.world in
        let (sent, w') = k.create_worker_node w (new_worker_node c k s.object name nodes) in
        recon_worker_nodes c k s
        ≡ after sent (λ e. failed c k e.message) (done c []) (record s { world = w' })
  unfolding run_add_node failed recon_worker_nodes run_action scale_input scale_nodes
  recon_worker_nodes-Unsized s nodes details total stateful listed found requested
        requested_stateful other used room =
      let i = scale_input c k s.object details nodes stateful total in
      let unsized = scale_nodes-Unsized k.instance_type details nodes other in
      let counted : Scale.node_count i ≡ pos (length nodes) =
        ap pos (count-scale_nodes k.instance_type details nodes) in
      let (r, decision) =
        calculate-Unsized i unsized used (ground arith) (ground (arith, counted)) in
      let (count, decided) = decide_add_node c k i r s decision in
      rw (listed, found, requested, requested_stateful, decided) refl
