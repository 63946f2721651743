-- ===== src/Examples/Pools.antt =====
-- The properties of the autoscaler and of the pools at concrete inputs.
use kl_internal_operator.Base.{
  ℕ, ◌↔◌, ◌≡◌, ◌≢◌, ◌≤◌, refl, ◌⊎◌, inl, String, true, false, Option, none, some, List, [], ◌∷◌,
  All, Any, arith,
}
use kl_internal_operator.Base.Integers.{◌+ℤ◌, ◌-ℤ◌, ◌*ℤ◌, wrap, quot, ℤ, pos, ◌≤ℤ◌}
use kl_internal_operator.Exec.{returned, panicked}
use kl_internal_operator.GoMap.{made, nil_map, lookup}
use kl_internal_operator.Kube.{Error, ok}
use kl_internal_operator.Operator.{get_local}
use kl_internal_operator.Request.{State, Client}
use kl_internal_operator.Resources.{Res}
use kl_internal_operator.Scale.{
  scale, scale_by_total, log_filled, get_total_filled, get_allocatable, sum_sizes,
  get_filled_by_assuming_less, Input, Node, calculate, add_node, del_node, nodes_filled, underused,
}
use kl_internal_operator.Scale.Decision.{Warrants, calculate-Warrants, calculate-ne-panicked}
use kl_internal_operator.Scale.Stability.{grow, calculate_no_flap}
use kl_internal_operator.NodePool.{
  NodePoolSpec, WorkerNode, IDetails, new_index, last_index, node_at,
}
use kl_internal_operator.NodePool.Index.{IsFree, new_index_least, last_node}
use kl_internal_operator.NodePool.Steps.{
  finalize_pool, Cluster, new_worker_node, failed, recon_worker_nodes,
}
use kl_internal_operator.NodePool.Unsized.{recon_worker_nodes-Unsized}
use kl_internal_operator.Edge.{EdgeSpec, EdgeCluster, PoolObject, wanted_pools, recon_pool}
use kl_internal_operator.Controller.Waiting.{finalize_pool_waits}
use kl_internal_operator.CloudProvider.{Secrets}
use kl_internal_operator.Request.{after, done}
use kl_internal_operator.Request.Stopping.{Stops}
use kl_internal_operator.Request.Converging.{Keeps}
use kl_internal_operator.Edge.Labels.{edge_labels, edge_annotations}
use kl_internal_operator.Domain.{DomainSpec, Nameserver, not_matched, finalize_domain}
use kl_internal_operator.Domain.Records.{Starts, not_matched_iff, finalize_domain_waits}
use kl_internal_operator.Edge.Pools.{recon_pool_settled}
use kl_internal_operator.Examples.{server-Keeps, server, metadata, account_labels, state}

abbrev node : Node
node = record { name = "n"; stateful = true; size = record { memory = pos 1000; cpu = pos 1000 } }

-- A pool of one node, filled to 90 percent.
abbrev filled : Input
filled = record {
  min_node = pos 1;
  max_node = pos 3;
  nodes = node ∷ [];
  stateful_used = pos 0;
  total_used = pos 900;
  threshold = pos 80;
  buffer = pos 0;
  stateful_count = pos 0;
  stateful_allocatable = none;
}

calculate-ne-panicked_example : (calculate filled).0 ≢ panicked
calculate-ne-panicked_example = calculate-ne-panicked filled (inl refl) (omega arith)

filled-adds : (calculate filled).0 ≡ returned (add_node, nodes_filled)
unfolding calculate scale scale_by_total log_filled get_total_filled get_allocatable sum_sizes ◌+ℤ◌
    wrap quot get_filled_by_assuming_less ◌-ℤ◌ ◌*ℤ◌
filled-adds = refl

calculate-Warrants_example : Warrants filled add_node
calculate-Warrants_example = calculate-Warrants filled add_node nodes_filled (inl refl) filled-adds

calculate_no_flap_example : (calculate (grow filled node)).0 ≢ returned (del_node, underused)
calculate_no_flap_example =
    calculate_no_flap filled node node [] refl (ground arith) refl (omega arith) (omega arith)
      (ground arith) (inl refl) nodes_filled underused filled-adds

abbrev worker : WorkerNode
worker = record {
  name = "w";
  labels = nil_map;
  owner_references = [];
  spec = record {
    stateful = false;
    cluster_name = "";
    account_name = "acc";
    region = "r";
    edge_name = "edge";
    provider = "do";
    provider_name = "p";
    config = "";
    pool = "edge-pool";
    index = pos 0;
  };
}

new_index_least_example :
    (new_index (worker ∷ []) ≤ 1)
    × IsFree (new_index (worker ∷ [])) (worker ∷ [])
    × ((new_index (worker ∷ []) ≤ 0) ⊎ Any (λ n. n.spec.index ≡ pos 0) (worker ∷ []))
new_index_least_example = new_index_least (worker ∷ []) 0

last_node_example :
    (victim : WorkerNode) × (node_at (last_index (pos 0) (worker ∷ [])) (worker ∷ []) ≡ some victim)
    × All (λ m. m.spec.index ≤ℤ victim.spec.index) (worker ∷ [])
last_node_example = last_node worker [] (omega arith, tt)

abbrev memory : ℤ → Res
memory m = record { cpu = pos 0; memory = m }

abbrev no_details : IDetails
no_details = record { aws = made []; digital_ocean = made [] }

abbrev cluster : Cluster Unit
cluster = record {
  list_worker_nodes = λ w edge. ok (worker ∷ []);
  create_worker_node = λ w n. (none, w);
  delete_worker_node = λ w n. (none, w);
  tag_stateful = λ w n. w;
  instance_details = λ w. ok no_details;
  instance_type = λ config. "";
  pod_request = λ w labels kind. ok (memory (pos 10));
  new_uuid = λ w. ("uuid", w);
}

abbrev pool_spec : NodePoolSpec
pool_spec = record {
  account_name = "acc";
  cluster_name = "c";
  edge_name = "edge";
  provider = "do";
  provider_name = "p";
  region = "r";
  config = "";
  min = pos 1;
  max = pos 5;
}

abbrev pool : State Unit NodePoolSpec String (List (String × String)) IDetails
pool = record (state {L = IDetails} pool_spec none (made [])) {
  locals = made (("instance-details", no_details) ∷ []);
}

recon_worker_nodes-Unsized_example :
    let (name, w) = cluster.new_uuid pool.world in
    let (sent, w') =
      cluster.create_worker_node w
        (new_worker_node server cluster pool.object name (worker ∷ [])) in
    recon_worker_nodes server cluster pool
    ≡ after sent
        (λ e. failed server cluster e.message)
        (done server [])
        (record pool { world = w' })
recon_worker_nodes-Unsized_example =
    recon_worker_nodes-Unsized server cluster pool (worker ∷ []) no_details (memory (pos 10))
      (memory (pos 10)) refl (unfold get_local lookup in refl) refl refl (cc, tt) (omega arith)
      (omega arith)

abbrev edge_spec : EdgeSpec
edge_spec = record {
  account_name = "acc";
  provider = "do";
  region = "r";
  provider_name = "p";
  cluster_name = "c";
  pools = record { name = "pool"; config = ""; min = pos 1; max = pos 5 } ∷ [];
}

abbrev edge : State Unit EdgeSpec String (List (String × String)) Unit
edge = state edge_spec none (made [])

abbrev edge_cluster : EdgeCluster Unit
edge_cluster = record {
  get_provider = λ w name. ok (metadata none);
  region_account = λ w name. ok "acc";
  list_pools = λ w name. ok (wanted_pools account_labels edge.object);
  apply_region = λ w name account provider. (none, w);
  apply_pools = λ w pools. (none, w);
}

abbrev refused : Unit {0} → List PoolObject → Option Error × Unit {0}
refused w pools = (some (record { message = "refused"; not_found = false }), w)

recon_pool_settled_example :
    recon_pool server (record edge_cluster { apply_pools = refused }) edge
    ≡ recon_pool server edge_cluster edge
recon_pool_settled_example = recon_pool_settled server edge_cluster refused account_labels edge refl

finalize_pool_waits_example : (finalize_pool server cluster pool).1.object.metadata ≡ metadata none
finalize_pool_waits_example =
    finalize_pool_waits server cluster server-Keeps pool (λ h. ground arith)

abbrev secrets : Secrets Unit String
secrets = record {
  count_edges = λ w provider. ok 2;
  get_secret = λ w namespace name. ok "secret";
  delete_secret = λ w secret. (none, w);
}

abbrev provider : State Unit Unit String (List (String × String)) Unit
provider = state tt (some 5) nil_map

abbrev no_deletion : Unit {0} → String → Option Error × Unit {0}
no_deletion w secret = (some (record { message = "refused"; not_found = false }), w)

not_matched_iff_example :
    (not_matched ("10.0.0.2" ∷ []) ("10.0.0.2" ∷ "10.0.0.1" ∷ []) ≡ false)
    ↔ Starts ("10.0.0.2" ∷ []) ("10.0.0.2" ∷ "10.0.0.1" ∷ [])
not_matched_iff_example = not_matched_iff ("10.0.0.2" ∷ []) ("10.0.0.2" ∷ "10.0.0.1" ∷ [])

abbrev unreachable : Error
unreachable = record { message = "unreachable"; not_found = false }

abbrev nameserver : Nameserver Unit
nameserver = record {
  get_answers = λ w name. ok [];
  upsert_domain = λ w name ips. (none, w);
  delete_domain = λ w name. (some unreachable, w);
}

abbrev domain : State Unit DomainSpec String (List (String × String)) Unit
domain = state (record { name = "a.example"; ips = "10.0.0.2" ∷ [] }) (some 5) nil_map

finalize_domain_waits_example :
    ((finalize_domain server nameserver domain).1.object.metadata ≡ metadata (some 5))
    × Stops (finalize_domain server nameserver domain).0
finalize_domain_waits_example =
    finalize_domain_waits server nameserver server-Keeps domain unreachable refl

abbrev printed : ℕ → String
printed n = "1"

abbrev edge_server : Client Unit EdgeSpec String (List (String × String))
edge_server = record server {
  ensured_labels = edge_labels;
  ensured_annotations = edge_annotations printed "infra.kloudlite.io/v1, Kind=Edge";
}

edge_server-Keeps : Keeps edge_server
edge_server-Keeps = record {
  update-Keeps = λ w o. (refl, refl);
  update_status-Keeps = λ w o. (refl, refl);
}
