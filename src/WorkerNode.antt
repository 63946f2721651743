-- ===== src/WorkerNode.antt =====
-- controllers/infra/workernode_controller.go, types.go and lib/terraform/main.go: the controller of
-- worker nodes, which creates a node by a job, attaches it to the cluster, and deletes it.
pub mod Jobs
pub mod Steps
pub mod Attaching
pub mod Deleting
use kl_internal_operator.Base.{String, List, [], ◌∷◌, Option}
use kl_internal_operator.Exec.{Exec, Outcome}
use kl_internal_operator.GoMap.{GoMap}
use kl_internal_operator.Kube.{Error, Result}
use kl_internal_operator.Operator.{Object}
use kl_internal_operator.Request.{Client}
use kl_internal_operator.Controller.{Response, reconcile_object, reconcile_fetched}
use kl_internal_operator.NodePool.{WorkerNodeSpec}
use kl_internal_operator.WorkerNode.Jobs.{NodeCluster}
use kl_internal_operator.WorkerNode.Steps.{
  node_created, node_attached, fetch_kube_config, ensure_node_created, ensure_node_attached,
  finalize_node,
}

module _ {W V B : Type 0} (c : Client W WorkerNodeSpec V B) (k : NodeCluster W) where
  unfoldable pub reconcile_worker_node :
      (Error → Option Error) → Result (Object WorkerNodeSpec V B) → W → Outcome Response × W
  reconcile_worker_node ignore_not_found fetched = reconcile_fetched c ignore_not_found fetched (
      reconcile_object c (node_created ∷ node_attached ∷ []) (finalize_node c k)
        (fetch_kube_config k ∷ ensure_node_created c k ∷ ensure_node_attached c k ∷ []))
