-- ===== src/Controller/Waiting.antt =====
-- The finalizers of the controllers, while something that a resource stands for is there.
use kl_internal_operator.Base.{◌≡◌, ◌≢◌, refl, Option, List, [], ◌∷◌, arith, ℕ, suc}
use kl_internal_operator.Kube.{Result, ok, err, Error}
use kl_internal_operator.Request.{Client, State}
use kl_internal_operator.Request.Converging.{Keeps}
use kl_internal_operator.Request.Keeping.{done_metadata, check_failed_metadata}
use kl_internal_operator.NodePool.{NodePoolSpec, WorkerNode, IDetails}
use kl_internal_operator.NodePool.Steps.{
  Cluster, finalize_pool, worker_nodes_deleted, current_check,
}
use kl_internal_operator.CloudProvider.{Secrets, finalize_provider}
use kl_internal_operator.Edge.{EdgeSpec, EdgeCluster, PoolObject, finalize_edge, current}

module _ {W V B : Type 0} (c : Client W NodePoolSpec V B) (k : Cluster W) (keeps : Keeps c) where
  finalize_pool_listed :
      (s : State W NodePoolSpec V B IDetails) (listed : Result (List WorkerNode))
      → k.list_worker_nodes s.world s.object.spec.edge_name ≡ listed
      → listed ≢ ok []
      → (finalize_pool c k s).1.object.metadata ≡ s.object.metadata
  unfolding finalize_pool
  finalize_pool_listed s (err e) h some_left = ground (
    arith,
    h,
    check_failed_metadata c keeps worker_nodes_deleted (current_check s.object) e.message s,
  )
  finalize_pool_listed s (ok []) h some_left = absurd (some_left refl)
  finalize_pool_listed s (ok (n ∷ nodes)) h some_left = ground (arith, h, done_metadata c keeps s)

  -- Unless the list of the worker nodes of its edge comes back empty, also when no list comes back,
  -- a node pool that is being deleted keeps its metadata, finalizers included, with a server that
  -- keeps what it is sent.
  pub finalize_pool_waits :
      (s : State W NodePoolSpec V B IDetails)
      → k.list_worker_nodes s.world s.object.spec.edge_name ≢ ok []
      → (finalize_pool c k s).1.object.metadata ≡ s.object.metadata
  finalize_pool_waits s h =
      finalize_pool_listed s (k.list_worker_nodes s.world s.object.spec.edge_name) refl h

module _ {W V B : Type 0} (c : Client W EdgeSpec V B) (k : EdgeCluster W) (keeps : Keeps c) where
  finalize_edge_listed :
      (s : State W EdgeSpec V B Unit) (listed : Result (List PoolObject))
      → k.list_pools s.world s.object.metadata.name ≡ listed
      → listed ≢ ok []
      → (finalize_edge c k s).1.object.metadata ≡ s.object.metadata
  unfolding finalize_edge
  finalize_edge_listed s (err e) h some_left =
      ground (arith, h, check_failed_metadata c keeps "NodePoolsDeleted" (current c s) e.message s)
  finalize_edge_listed s (ok []) h some_left = absurd (some_left refl)
  finalize_edge_listed s (ok (n ∷ nodes)) h some_left = ground (arith, h, done_metadata c keeps s)

  -- Unless the list of its node pools comes back empty, also when no list comes back, an edge that
  -- is being deleted keeps its metadata, finalizers included, with a server that keeps what it is
  -- sent.
  pub finalize_edge_waits :
      (s : State W EdgeSpec V B Unit)
      → k.list_pools s.world s.object.metadata.name ≢ ok []
      → (finalize_edge c k s).1.object.metadata ≡ s.object.metadata
  finalize_edge_waits s h =
      finalize_edge_listed s (k.list_pools s.world s.object.metadata.name) refl h

module _ {W Secret V B : Type 0} (c : Client W Unit V B) (k : Secrets W Secret)
    (keeps : Keeps c) where
  -- While the provider has an edge, a cloud provider that is being deleted keeps its metadata,
  -- finalizers included, with a server that keeps what it is sent, and its secret is left alone:
  -- the step answers the same whatever a deletion would do.
  pub finalize_provider_waits :
      (s : State W Unit V B Unit) (n : ℕ) (delete : W → Secret → Option Error × W)
      → k.count_edges s.world s.object.metadata.name ≡ ok (suc n)
      → ((finalize_provider c k s).1.object.metadata ≡ s.object.metadata)
        × (finalize_provider c (record k { delete_secret = delete }) s ≡ finalize_provider c k s)
  unfolding finalize_provider
  finalize_provider_waits s n delete h = (ground (arith, h, done_metadata c keeps s), rw h refl)
