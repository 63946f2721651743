-- ===== src/StatusConditions/Conditions2.antt =====
-- lib/functions/conditions.go: the conditions that the methods of `conditions2` make, which have their
-- own text in the source. `StatusFromBool` and `IfThenElse` are one function for both builders.
use Prim.Native.String.{◌++◌ as ◌<>◌}
use kl_internal_operator.Base.{
  ℕ, String, not, Option, none, some, List, nat_beq, ltb, if◌then◌else◌,
}
use kl_internal_operator.Base.Integers.{pos}
use kl_internal_operator.Kube.{Error, new_error, Condition}
use kl_internal_operator.StatusConditions.{
  Meta, ContainerState, condition_ready, success_reason, status_from_bool,
}
use kl_internal_operator.StatusConditions.Sources.{StatefulSet, DeploymentCondition, status_of}

-- The latest transition that was seen.
unfoldable pub later : ℕ → Condition → ℕ
later lt cond = if ltb lt cond.last_transition_time then cond.last_transition_time else lt

-- A condition without a transition.
abbrev timeless : String → String → String → String → Condition
timeless ctype status reason message = record {
  ctype = ctype;
  status = status;
  observed_generation = pos 0;
  last_transition_time = 0;
  reason = reason;
  message = message;
}

unfoldable pub not_created : String → Error → Condition
not_created reason e = timeless "NotCreated" "True" reason e.message

unfoldable pub of_deployment : DeploymentCondition → Condition
of_deployment cond = timeless cond.ctype cond.status cond.reason cond.message

unfoldable pub replicas_ready : StatefulSet → Condition
replicas_ready sts =
    timeless condition_ready (status_of (nat_beq sts.ready_replicas sts.replicas))
      "AllReplicasReady" "StatefulSet Ready"

unfoldable pub deployment_ready : Meta → List Condition → Condition
deployment_ready meta depl_conditions =
    timeless condition_ready (status_of (meta.is_status_condition_true depl_conditions "Available"))
      success_reason "Deployment is Available"

unfoldable pub not_deployed : Meta → List Condition → Option Error
not_deployed meta conds =
    if not (meta.is_status_condition_true conds "Deployed")
    then some (new_error "helm not yet deployed")
    else none

unfoldable pub pod_condition : String → Condition → Condition
pod_condition idx condition = record condition {
  ctype = "Pod-idx-" <> (idx <> ("-" <> condition.ctype));
  observed_generation = pos 0;
  reason = "Pod:Idx:" <> (idx <> ":NotSpecified");
}

-- `p`, whose reason and message a waiting state writes, and then a running one.
with_waiting : Option (String × String) → Condition → Condition
with_waiting none p = p
with_waiting (some (reason, message)) p = record p { reason = reason; message = message }

with_running : Option String → Condition → Condition
with_running none p = p
with_running (some since) p = record p {
  reason = "Running";
  message = "Container running since " <> since;
}

unfoldable pub container_condition : ContainerState → Condition
unfolding with_waiting with_running
container_condition cs =
    with_running cs.running
      (with_waiting cs.waiting (timeless ("Name-" <> cs.name) (status_from_bool cs.ready) "" ""))
