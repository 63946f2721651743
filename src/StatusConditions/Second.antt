-- ===== src/StatusConditions/Second.antt =====
-- lib/functions/conditions.go: `conditions2`, which has the latest transition `lt`, as a natural
-- number, and writes the list `cl` of its caller. A method gives both, as they are after it.
use Prim.Native.String.{◌++◌ as ◌<>◌}
use kl_internal_operator.Base.{
  ℕ, String, Bool, true, false, not, Option, none, some, List, [], ◌∷◌, map, length, nat_beq, ◌==◌,
  ◌!=◌, nat_eq, string_eq, if◌then◌else◌,
}
use kl_internal_operator.Kube.{Error, Result, ok, err, Condition, condition_true, condition_false}
use kl_internal_operator.Conditions.{specified}
use kl_internal_operator.StatusConditions.{
  Meta, PodStatus, first_or, error_reason, ready_condition, same_condition,
}
use kl_internal_operator.StatusConditions.Sources.{StatefulSet, Deployment, ApiReader}
use kl_internal_operator.StatusConditions.Conditions2.{
  later, not_created, of_deployment, replicas_ready, deployment_ready, not_deployed, pod_condition,
  container_condition,
}

abbrev pub Listed : Type 0
Listed = ℕ × List Condition

-- A condition without a reason or a time gets them, and one of a group its prefixes.
timed : ℕ → Condition → Condition
timed lt cond = record cond {
  reason = specified cond.reason;
  last_transition_time = (if cond.last_transition_time == 0 then lt else cond.last_transition_time);
}

grouped : String → Condition → Condition
grouped group cond =
    if group != ""
    then record cond { reason = group <> (":" <> cond.reason); ctype = group <> cond.ctype }
    else cond

module _ (meta : Meta) where
  unfoldable pub build : String → List Condition → Listed → Listed
  unfolding timed grouped
  build group [] l = l
  build group (cond ∷ conds) (lt, cl) =
      let seen = later lt cond in
      build group conds (seen, meta.set_status_condition cl (grouped group (timed seen cond)))

  unfoldable pub mark_ready : String → List String → Listed → Listed
  mark_ready reason msg = build "" (ready_condition condition_true reason (first_or "" msg) ∷ [])

  unfoldable pub mark_not_ready : Error → List String → Listed → Listed
  mark_not_ready e reason =
      build "" (ready_condition condition_false (first_or error_reason reason) e.message ∷ [])

  -- The loop of `Equal`.
  all_found : List Condition → List Condition → Bool
  all_found [] second = true
  all_found (c ∷ first) second =
      if same_condition meta c (meta.find_status_condition second c.ctype)
      then all_found first second
      else false

  unfoldable pub equal : List Condition → List Condition → Bool
  unfolding all_found
  equal first second =
      if not (nat_beq (length first) (length second)) then false else all_found first second

  -- The first pod alone, as in `BuildFromPods` of the other builder.
  unfoldable pub build_from_pods : List PodStatus → Listed → Listed
  unfolding pod_condition container_condition
  build_from_pods [] l = l
  build_from_pods (pod ∷ pods) l =
      build "Container" (map container_condition pod.container_states)
        (build "" (map (pod_condition "0") pod.pod_conditions) l)

module _ {H B : Type 0} (meta : Meta) (k : ApiReader H B) where
  -- The builder after an error of the read, which is returned.
  unfoldable pub build_not_created : String → String → Error → Listed → Listed × Option Error
  build_not_created group reason e l =
      (if e.not_found then build meta group (not_created reason e ∷ []) l else l, some e)

  -- The pods, once they are listed.
  unfoldable pub build_listed :
      (Error → Error) → Result (List PodStatus) → Listed → Listed × Option Error
  build_listed wrapped (err e) l = (l, some (wrapped e))
  build_listed wrapped (ok pods) l = (build_from_pods meta pods l, none)

  unfoldable pub build_helm_conditions : Result (List Condition) → Listed → Listed × Option Error
  build_helm_conditions (err e) l = (l, some e)
  build_helm_conditions (ok conds) l = (build meta "Helm" conds l, not_deployed meta conds)

  unfoldable pub build_helm_bytes : Result B → Listed → Listed × Option Error
  build_helm_bytes (err e) l = (l, some e)
  build_helm_bytes (ok b) l = build_helm_conditions (k.unmarshal_conditions b) l

  unfoldable pub build_helm : Result H → Listed → Listed × Option Error
  build_helm (err e) l = build_not_created "Helm" "HelmResourceNotFound" e l
  build_helm (ok hm) l = build_helm_bytes (k.marshal_json hm) l

  unfoldable pub build_from_helm_msvc : String → String × String → Listed → Listed × Option Error
  build_from_helm_msvc kind nn l = build_helm (k.get_msvc kind nn) l

  unfoldable pub build_stateful_set : Result StatefulSet → Listed → Listed × Option Error
  build_stateful_set (err e) l = build_not_created "StatefulSet" "StsResourceNotFound" e l
  build_stateful_set (ok sts) l =
      build_listed (λ e. e) (k.list_pods sts.template_labels sts.namespace)
        (build meta "" (replicas_ready sts ∷ []) l)

  unfoldable pub build_from_statefulset : String × String → Listed → Listed × Option Error
  build_from_statefulset nn l = build_stateful_set (k.get_stateful_set nn) l

  unfoldable pub build_deployment : Result Deployment → Listed → Listed × Option Error
  build_deployment (err e) l = build_not_created "Deployment" "DeploymentNotFound" e l
  build_deployment (ok depl) l =
      let conds = map of_deployment depl.conditions in
      build_listed (λ e. k.new_ef e "could not list pods for deployment")
        (k.list_pods depl.template_labels depl.namespace)
        (build meta "" (deployment_ready meta conds ∷ []) (build meta "Deployment" conds l))

  unfoldable pub build_from_deployment : String × String → Listed → Listed × Option Error
  build_from_deployment nn l = build_deployment (k.get_deployment nn) l
