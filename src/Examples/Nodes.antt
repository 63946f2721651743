-- ===== src/Examples/Nodes.antt =====
-- The properties of worker nodes at concrete inputs.
use kl_internal_operator.Base.{
  ◌≡◌, refl, inr, String, Bool, true, false, Option, none, some, List, [], ◌∷◌,
}
use kl_internal_operator.Base.Integers.{pos}
use kl_internal_operator.GoMap.{made, nil_map, lookup}
use kl_internal_operator.Kube.{Error, Result, ok, err, new_error}
use kl_internal_operator.Operator.{Check}
use kl_internal_operator.StepResult.{should_proceed, continue_with, new}
use kl_internal_operator.Request.Stopping.{Stops}
use kl_internal_operator.Request.Reports.{pass_check}
use kl_internal_operator.NodePool.{WorkerNodeSpec}
use kl_internal_operator.WorkerNode.Jobs.{NodeCluster, get_outputs}
use kl_internal_operator.WorkerNode.Steps.{
  label_node, NodeState, ensure_node_attached, finalize_node,
}
use kl_internal_operator.WorkerNode.Attaching.{IsAttached, ensure_node_attached-IsAttached}
use kl_internal_operator.WorkerNode.Deleting.{finalize_node_waits}
use kl_internal_operator.Examples.{server, server-Keeps, metadata, status}

abbrev spec : WorkerNodeSpec
spec = record {
  stateful = false;
  cluster_name = "c";
  account_name = "acc";
  region = "r";
  edge_name = "edge";
  provider = "aws";
  provider_name = "p";
  config = "{}";
  pool = "pool";
  index = pos 0;
}

-- The world tells whether there is a job that creates a node.
abbrev NodeWorld : Type 0
NodeWorld = Bool

abbrev absent : Error
absent = record { message = "not found"; not_found = true }

abbrev job_there : Bool → Option Error
job_there true = none
job_there false = some absent

abbrev cluster : Result String → NodeCluster Bool
cluster outputs = record {
  get_secret = λ w namespace name. ok (made (("accessKey", "a") ∷ ("accessSecret", "s") ∷ []));
  get_node = λ w name. err absent;
  update_node = λ w node. (none, w);
  delete_node = λ w node. (none, w);
  get_job = λ w name. job_there w;
  apply_job = λ w job. (none, true);
  delete_job = λ w name. (none, false);
  output_bytes = λ w dir. outputs;
  parse_outputs = λ out. ok (made (("node-ip", "10.0.0.1") ∷ []));
  parse_aws = λ config. ok (record { node_id = ""; region = ""; instance_type = "t"; vpc = "" });
  parse_do = λ config. err (new_error "");
  exec_cmd = λ w cmd. (none, w);
  join_path = λ l. "/tf";
  trim_space = λ s. s;
  print = λ n. "0";
  env = record { store_path = "/s"; tf_templates = "/t"; ssh_path = "/k" };
}

abbrev worker : Bool → NodeState Bool String (List (String × String))
worker job = record {
  object = record { metadata = metadata none; spec = spec; status = status nil_map };
  world = job;
  locals = made (("kubeconfig-sec", made []) ∷ []);
}

abbrev attached_check : Check
attached_check = record { status = true; message = ""; generation = pos 1 }

abbrev attached_worker : NodeState Bool String (List (String × String))
attached_worker = record (worker false) {
  object = record {
    metadata = metadata none;
    spec = spec;
    status = status (made (("node-attached", attached_check) ∷ []));
  };
}

abbrev attached_cluster : NodeCluster Bool
attached_cluster = record (cluster (ok "{}")) {
  get_node = λ w name.
      ok (record (metadata none) { labels = made (("kloudlite.io/stateful-node", "false") ∷ []) });
}

ensure_node_attached-IsAttached_example : IsAttached server attached_cluster attached_worker
ensure_node_attached-IsAttached_example =
    ensure_node_attached-IsAttached server attached_cluster attached_worker (
      unfold ensure_node_attached label_node pass_check lookup should_proceed continue_with new in
      refl)

finalize_node_waits_example :
    ((finalize_node server (cluster (ok "{}")) (worker false)).1.object.metadata ≡ metadata none)
    × Stops (finalize_node server (cluster (ok "{}")) (worker false)).0
finalize_node_waits_example =
    finalize_node_waits server (cluster (ok "{}")) server-Keeps (worker false)
      (inr (inr (made (("node-ip", "10.0.0.1") ∷ []), unfold get_outputs in refl)))
