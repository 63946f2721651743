-- ===== src/StatusConditions/Sources.antt =====
-- lib/functions/conditions.go: what `statusConditions` builds from the resources of the API server.
use kl_internal_operator.Base.{
  ℕ, String, Bool, not, Option, none, some, List, [], ◌∷◌, map, nat_beq, if◌then◌else◌,
}
use kl_internal_operator.Base.Integers.{pos}
use kl_internal_operator.GoMap.{GoMap}
use kl_internal_operator.Kube.{
  Error, Result, ok, err, new_error, Condition, condition_true, condition_false,
}
use kl_internal_operator.StatusConditions.{
  Meta, StatusConditions, PodStatus, build, build_from_pods, ready_condition, success_reason,
}

-- The parts of appsv1.StatefulSet and appsv1.Deployment that are read.
pub record StatefulSet : Type 0 where
  pub namespace : String
  pub template_labels : GoMap String
  pub replicas : ℕ
  pub ready_replicas : ℕ

pub record DeploymentCondition : Type 0 where
  pub ctype : String
  pub status : String
  pub reason : String
  pub message : String

pub record Deployment : Type 0 where
  pub namespace : String
  pub template_labels : GoMap String
  pub conditions : List DeploymentCondition

-- What the API server answers, for a namespace and a name; the resource of the kind of a managed
-- service, `H`, as bytes `B` (`MarshalJSON`), and the conditions that json.Unmarshal reads there;
-- and the text of errors.NewEf.
pub record ApiReader (H B : Type 0) : Type 0 where
  pub get_msvc : String → String × String → Result H
  pub marshal_json : H → Result B
  pub unmarshal_conditions : B → Result (List Condition)
  pub get_stateful_set : String × String → Result StatefulSet
  pub get_deployment : String × String → Result Deployment
  pub list_pods : GoMap String → String → Result (List PodStatus)
  pub new_ef : Error → String → Error

-- The condition of a resource that is not found.
unfoldable pub not_created : String → Error → Condition
not_created reason e = record {
  ctype = "NotCreated";
  status = "True";
  observed_generation = pos 0;
  last_transition_time = 0;
  reason = reason;
  message = e.message;
}

unfoldable pub of_deployment : DeploymentCondition → Condition
of_deployment c = record {
  ctype = c.ctype;
  status = c.status;
  observed_generation = pos 0;
  last_transition_time = 0;
  reason = c.reason;
  message = c.message;
}

abbrev pub status_of : Bool → String
status_of b = if b then condition_true else condition_false

unfoldable pub replicas_ready : StatefulSet → Condition
replicas_ready sts =
    ready_condition (status_of (nat_beq sts.ready_replicas sts.replicas)) "AllReplicasReady"
      "StatefulSet Ready"

unfoldable pub deployment_ready : Meta → List Condition → Condition
deployment_ready meta conds =
    ready_condition (status_of (meta.is_status_condition_true conds "Available")) success_reason
      "Deployment is Available"

-- `IsTrue`, `IsFalse` and `Reset`
unfoldable pub is_true : Meta → String → StatusConditions → Bool
is_true meta condition_type s = meta.is_status_condition_true s.conditions condition_type

unfoldable pub is_false : Meta → String → StatusConditions → Bool
is_false meta condition_type s = meta.is_status_condition_false s.conditions condition_type

unfoldable pub reset : StatusConditions → StatusConditions
reset s = record s { conditions = [] }

abbrev pub not_deployed : Meta → List Condition → Option Error
not_deployed meta conds =
    if not (meta.is_status_condition_true conds "Deployed")
    then some (new_error "helm not yet deployed")
    else none

module _ {H B : Type 0} (meta : Meta) (k : ApiReader H B) where
  -- The builder after an error of the read, which is returned.
  unfoldable pub build_not_created :
      String → String → Error → StatusConditions → StatusConditions × Option Error
  build_not_created group reason e s =
      (if e.not_found then build meta group (not_created reason e ∷ []) s else s, some e)

  -- The pods, once they are listed.
  unfoldable pub build_listed :
      (Error → Error) → Result (List PodStatus) → StatusConditions → StatusConditions × Option Error
  build_listed wrapped (err e) s = (s, some (wrapped e))
  build_listed wrapped (ok pods) s = (build_from_pods meta pods s, none)

  unfoldable pub build_helm_conditions :
      Result (List Condition) → StatusConditions → StatusConditions × Option Error
  build_helm_conditions (err e) s = (s, some e)
  build_helm_conditions (ok conds) s = (build meta "Helm" conds s, not_deployed meta conds)

  unfoldable pub build_helm_bytes : Result B → StatusConditions → StatusConditions × Option Error
  build_helm_bytes (err e) s = (s, some e)
  build_helm_bytes (ok b) s = build_helm_conditions (k.unmarshal_conditions b) s

  unfoldable pub build_helm : Result H → StatusConditions → StatusConditions × Option Error
  build_helm (err e) s = build_not_created "Helm" "HelmResourceNotFound" e s
  build_helm (ok hm) s = build_helm_bytes (k.marshal_json hm) s

  unfoldable pub build_from_helm_msvc :
      String → String × String → StatusConditions → StatusConditions × Option Error
  build_from_helm_msvc kind nn s = build_helm (k.get_msvc kind nn) s

  unfoldable pub build_stateful_set :
      Result StatefulSet → StatusConditions → StatusConditions × Option Error
  build_stateful_set (err e) s = build_not_created "StatefulSet" "StsResourceNotFound" e s
  build_stateful_set (ok sts) s =
      build_listed (λ e. e) (k.list_pods sts.template_labels sts.namespace)
        (build meta "" (replicas_ready sts ∷ []) s)

  unfoldable pub build_from_statefulset :
      String × String → StatusConditions → StatusConditions × Option Error
  build_from_statefulset nn s = build_stateful_set (k.get_stateful_set nn) s

  unfoldable pub build_deployment :
      Result Deployment → StatusConditions → StatusConditions × Option Error
  build_deployment (err e) s = build_not_created "Deployment" "DeploymentNotFound" e s
  build_deployment (ok depl) s =
      let conds = map of_deployment depl.conditions in
      build_listed (λ e. k.new_ef e "could not list pods for deployment")
        (k.list_pods depl.template_labels depl.namespace)
        (build meta "" (deployment_ready meta conds ∷ []) (build meta "Deployment" conds s))

  unfoldable pub build_from_deployment :
      String × String → StatusConditions → StatusConditions × Option Error
  build_from_deployment nn s = build_deployment (k.get_deployment nn) s
