-- ===== src/NodePool/Steps.antt =====
-- controllers/infra/nodepool_controller.go: `fetchRequired`, `reconWorkerNodes`, `finalize` and
-- `Reconcile`. What they ask of the API server and of other libraries is the record `Cluster`.
use kl_internal_operator.Base.{
  String, true, false, Option, none, some, List, [], ◌∷◌, ◌!=◌, string_eq, if◌then◌else◌,
}
use kl_internal_operator.Base.Integers.{ℤ, pos, int_eq}
use kl_internal_operator.Exec.{
  Exec, Outcome, returned, panicked, pure, gets, modify, act, ◌>>=◌, ◌>>◌,
}
use kl_internal_operator.GoMap.{made, get}
use kl_internal_operator.Kube.{Error, Result, ok, err}
use kl_internal_operator.Functions.{as_owner, or_zero}
use kl_internal_operator.StepResult.{Step}
use kl_internal_operator.Operator.{Check, zero_check, check_eq, Object, get_local, set_local}
use kl_internal_operator.Request.{
  Client, State, after, proceed, check_failed, set_check, update_status, done, finalize,
}
use kl_internal_operator.Controller.{Response, reconcile_object, reconcile_fetched}
use kl_internal_operator.Resources.{Res}
use kl_internal_operator.Scale
use kl_internal_operator.Scale.{Action, add_node, del_node, add_stateful, del_stateful, neutral}
use kl_internal_operator.NodePool.{
  NodePoolSpec, WorkerNode, IDetails, new_index, last_index, node_at, scale_nodes,
}

-- `list_worker_nodes` lists by the label of the edge; `instance_details` reads the ConfigMap and
-- parses its YAML; `tag_stateful` is ctrl.CreateOrUpdate with the mutation of `Stateful`, whose
-- results are dropped; `pod_request` is kresource.GetTotalPodRequest with its query made.
pub record Cluster (W : Type 0) : Type 0 where
  pub list_worker_nodes : W → String → Result (List WorkerNode)
  pub create_worker_node : W → WorkerNode → Option Error × W
  pub delete_worker_node : W → String → Option Error × W
  pub tag_stateful : W → WorkerNode → W
  pub instance_details : W → Result IDetails
  pub instance_type : String → String
  pub pod_request : W → List (String × String) → String → Result Res
  pub new_uuid : W → String × W

abbrev pub worker_nodes_ready : String
worker_nodes_ready = "worker-nodes-ready"

abbrev pub worker_nodes_deleted : String
worker_nodes_deleted = "worker-nodes-deleted"

abbrev pub region_key : String
region_key = "kloudlite.io/region"

abbrev pub current_check : {V B : Type 0} → Object NodePoolSpec V B → Check
current_check o = record zero_check { generation = o.metadata.generation }

module _ {W V B : Type 0} (c : Client W NodePoolSpec V B) (k : Cluster W) where
  abbrev Pool : Type 0
  Pool = State W NodePoolSpec V B IDetails

  -- A failure to read the instance details is only logged.
  unfoldable pub fetch_required : Exec Pool Step
  fetch_required = do
    s ← gets (λ s. s)
    elim (k.instance_details s.world) [
      | err e ↦ pure proceed
      | ok d ↦ (do
        modify (λ s. record s { locals = set_local s.locals "instance-details" d })
        pure proceed)
    ]

  unfoldable pub failed : String → Exec Pool Step
  failed msg = do s ← gets (λ s. s); check_failed c worker_nodes_ready (current_check s.object) msg

  -- The worker nodes of the pool's edge; a list that is not found counts as empty.
  listed :
      Result (List WorkerNode)
      → (Error → Exec Pool Step)
      → (List WorkerNode → Exec Pool Step)
      → Exec Pool Step
  listed (ok nodes) fail rest = rest nodes
  listed (err e) fail rest = if e.not_found then rest [] else fail e

  unfoldable pub new_worker_node : Object NodePoolSpec V B → String → List WorkerNode → WorkerNode
  new_worker_node o name nodes = record {
    name = name;
    labels = made ((region_key, o.spec.edge_name) ∷ []);
    owner_references = as_owner o.metadata (true ∷ []) ∷ [];
    spec = record {
      stateful = false;
      cluster_name = o.metadata.cluster_name;
      account_name = o.spec.account_name;
      region = o.spec.region;
      edge_name = o.spec.edge_name;
      provider = o.spec.provider;
      provider_name = o.spec.provider_name;
      config = o.spec.config;
      pool = o.metadata.name;
      index = pos (new_index nodes);
    };
  }

  unfoldable pub run_add_node : List WorkerNode → Exec Pool Step
  unfolding failed
  run_add_node nodes = do
    name ← act (λ s. let (n, w) = k.new_uuid s.world in (n, record s { world = w }))
    s ← gets (λ s. s)
    sent ← act (λ s.
        let (e, w) = k.create_worker_node s.world (new_worker_node s.object name nodes) in
        (e, record s { world = w }))
    after sent (λ e. failed e.message) (done c [])

  -- `break` after the first node with the last index; without such a node nothing is deleted.
  delete_last : Option WorkerNode → Exec Pool (Option Error)
  delete_last none = pure none
  delete_last (some n) =
      act (λ s. let (e, w) = k.delete_worker_node s.world n.name in (e, record s { world = w }))

  -- The steps after the `switch`: the check passes.
  unfoldable pub pass_check : Exec Pool Step
  pass_check = do
    s ← gets (λ s. s)
    let check = record (current_check s.object) { status = true }
    if check != or_zero zero_check (get s.object.status.checks worker_nodes_ready)
        then (do set_check worker_nodes_ready check; update_status c)
        else pure proceed

  unfoldable pub run_del_node : List WorkerNode → Exec Pool Step
  unfolding delete_last failed
  run_del_node [] = pass_check
  run_del_node (n ∷ nodes) = do
    sent ← delete_last (node_at (last_index (pos 0) (n ∷ nodes)) (n ∷ nodes))
    after sent (λ e. failed e.message) (done c [])

  unfoldable pub tag_node : Option WorkerNode → Exec Pool (Unit {0})
  tag_node none = pure tt
  tag_node (some n) = modify (λ s. record s { world = k.tag_stateful s.world n })

  -- The `switch` on the action; `count` is the second call of GetStatefulCount.
  unfoldable pub run_action : Action → ℤ → List WorkerNode → Exec Pool Step
  run_action add_node count nodes = run_add_node nodes
  run_action del_node count nodes = run_del_node nodes
  run_action add_stateful count nodes = do tag_node (node_at count nodes); pass_check
  run_action del_stateful count nodes = pass_check
  run_action neutral count nodes = pass_check

  unfoldable pub scale_input :
      Object NodePoolSpec V B → IDetails → List WorkerNode → Res → Res → Scale.Input
  scale_input o details nodes stateful_used total_used = record {
    min_node = o.spec.min;
    max_node = o.spec.max;
    nodes = scale_nodes k.instance_type details nodes;
    stateful_used = stateful_used.memory;
    total_used = total_used.memory;
    threshold = pos 80;
    buffer = pos 0;
    stateful_count = pos 0;
    stateful_allocatable = none;
  }

  -- `i.Calculate`, whose input is a variable of the step, and the cached count behind it.
  unfoldable pub decide : Scale.Input → Exec Pool (Action × ℤ)
  decide i s =
      let (r, i') = Scale.calculate i in
      elim r [
        | panicked ↦ (panicked, s)
        | returned (action, reason) ↦
            let (count, i'') = Scale.get_stateful_count i' in
            elim count [ panicked ↦ (panicked, s) | returned n ↦ (returned (action, n), s) ]
      ]

  with_result : Result Res → (Res → Exec Pool Step) → Exec Pool Step
  with_result (ok r) rest = rest r
  with_result (err e) rest = failed e.message

  with_details : Option IDetails → (IDetails → Exec Pool Step) → Exec Pool Step
  with_details none rest = failed "instance-details not found to make decision"
  with_details (some d) rest = rest d

  unfoldable pub recon_worker_nodes : Exec Pool Step
  unfolding listed with_result with_details failed
  recon_worker_nodes = do
    s ← gets (λ s. s)
    let edge = s.object.spec.edge_name
    listed (k.list_worker_nodes s.world edge) (λ e. failed e.message)
        λ nodes. with_details (get_local some s.locals "instance-details") λ details.
          with_result (k.pod_request s.world ((region_key, edge) ∷ []) "requests") λ total.
            with_result
              (k.pod_request s.world
                ((region_key, edge) ∷ ("kloudlite.io/stateful-node", "true") ∷ []) "requests")
              λ stateful. decide (scale_input s.object details nodes stateful total) >>= λ decision.
                run_action decision.0 decision.1 nodes

  -- `finalize` of the controller: it waits until the edge has no worker node.
  unfoldable pub finalize_pool : Exec Pool Step
  finalize_pool = do
    s ← gets (λ s. s)
    elim (k.list_worker_nodes s.world s.object.spec.edge_name) [
      | err e ↦ check_failed c worker_nodes_deleted (current_check s.object) e.message
      | ok [] ↦ finalize c
      | ok (_ ∷ _) ↦ done c []
    ]

  unfoldable pub reconcile :
      (Error → Option Error) → Result (Object NodePoolSpec V B) → W → Outcome Response × W
  reconcile ignore_not_found fetched = reconcile_fetched c ignore_not_found fetched (
      reconcile_object c (worker_nodes_ready ∷ worker_nodes_deleted ∷ []) finalize_pool
        (fetch_required ∷ recon_worker_nodes ∷ []))
