-- ===== src/StatusConditions/Agreement.antt =====
-- The two builders of lib/functions/conditions.go build the same.
use kl_internal_operator.Base.{◌≡◌, refl, ap, ◌∙◌, String, Option, none, List, [], ◌∷◌, arith, map}
use kl_internal_operator.Kube.{Error, Result, ok, err, Condition}
use kl_internal_operator.StatusConditions.{
  Meta, StatusConditions, PodStatus, build, built, later, build_from_pods, pod_condition,
  ContainerState, container_condition,
}
use kl_internal_operator.StatusConditions.Sources.{
  ApiReader, not_created, not_deployed, replicas_ready, deployment_ready, of_deployment,
  StatefulSet, Deployment, build_not_created, build_listed, build_helm_conditions, build_helm_bytes,
  build_helm, build_from_helm_msvc, build_stateful_set, build_from_statefulset, build_deployment,
  build_from_deployment,
}
use kl_internal_operator.StatusConditions.Conditions2
use kl_internal_operator.StatusConditions.Second
use kl_internal_operator.StatusConditions.Second.{Listed}

-- What `conditions2` has of the other builder's state.
abbrev pub as_listed : StatusConditions → Listed
as_listed s = (s.lt, s.conditions)

abbrev pub listed_result : StatusConditions × Option Error → Listed × Option Error
listed_result (s, e) = (as_listed s, e)

module _ (meta : Meta) where
  build_lem :
      (group : String) (conds : List Condition) (s : StatusConditions)
      → as_listed (build meta group conds s) ≡ Second.build meta group conds (as_listed s)
  unfolding build built Second.build Conditions2.later
  build_lem group [] s = refl
  build_lem group (cond ∷ conds) s =
      let seen = later s.lt cond in
      build_lem group conds (record {
        lt = seen;
        conditions = meta.set_status_condition s.conditions (built seen group cond);
      })

  containers_lem :
      (states : List ContainerState)
      → map container_condition states ≡ map Conditions2.container_condition states
  unfolding container_condition Conditions2.container_condition
  containers_lem [] = refl
  containers_lem (state ∷ states) = ground (arith, containers_lem states)

  build_from_pods_lem :
      (pods : List PodStatus) (s : StatusConditions)
      → as_listed (build_from_pods meta pods s) ≡ Second.build_from_pods meta pods (as_listed s)
  unfolding build_from_pods Second.build_from_pods pod_condition Conditions2.pod_condition
  build_from_pods_lem [] s = refl
  build_from_pods_lem (pod ∷ pods) s =
      build_lem "Container" _ (build meta "" (map (pod_condition "0") pod.pod_conditions) s)
      ∙ ap
          (λ conds.
            Second.build meta "Container" conds
              (as_listed (build meta "" (map (pod_condition "0") pod.pod_conditions) s)))
          (containers_lem pod.container_states)
      ∙ ap (Second.build meta "Container" _) (build_lem "" _ s)

module _ {H B : Type 0} (meta : Meta) (k : ApiReader H B) where
  build_not_created_lem :
      (group reason : String) (e : Error) (s : StatusConditions)
      → listed_result (build_not_created meta k group reason e s)
        ≡ Second.build_not_created meta k group reason e (as_listed s)
  unfolding build_not_created Second.build_not_created not_created Conditions2.not_created
  build_not_created_lem group reason e s =
      ground (arith, build_lem meta group (not_created reason e ∷ []) s)

  build_listed_lem :
      (wrapped : Error → Error) (pods : Result (List PodStatus)) (s : StatusConditions)
      → listed_result (build_listed meta k wrapped pods s)
        ≡ Second.build_listed meta k wrapped pods (as_listed s)
  unfolding build_listed Second.build_listed
  build_listed_lem wrapped (err e) s = refl
  build_listed_lem wrapped (ok pods) s = ap (λ l. (l, none)) (build_from_pods_lem meta pods s)

  build_helm_lem :
      (hm : Result H) (s : StatusConditions)
      → listed_result (build_helm meta k hm s) ≡ Second.build_helm meta k hm (as_listed s)
  unfolding build_helm Second.build_helm build_helm_conditions Second.build_helm_conditions
      build_helm_bytes Second.build_helm_bytes Conditions2.not_deployed
  build_helm_lem (err e) s = build_not_created_lem "Helm" "HelmResourceNotFound" e s
  build_helm_lem (ok hm) s = of_bytes (k.marshal_json hm)
    where
      of_conditions :
          (r : Result (List Condition))
          → listed_result (build_helm_conditions meta k r s)
            ≡ Second.build_helm_conditions meta k r (as_listed s)
      of_conditions (err e) = refl
      of_conditions (ok conds) =
          ap (λ l. (l, not_deployed meta conds)) (build_lem meta "Helm" conds s)

      of_bytes :
          (b : Result B)
          → listed_result (build_helm_bytes meta k b s)
            ≡ Second.build_helm_bytes meta k b (as_listed s)
      of_bytes (err e) = refl
      of_bytes (ok b) = of_conditions (k.unmarshal_conditions b)

  build_stateful_set_lem :
      (sts : Result StatefulSet) (s : StatusConditions)
      → listed_result (build_stateful_set meta k sts s)
        ≡ Second.build_stateful_set meta k sts (as_listed s)
  unfolding build_stateful_set Second.build_stateful_set replicas_ready Conditions2.replicas_ready
  build_stateful_set_lem (err e) s = build_not_created_lem "StatefulSet" "StsResourceNotFound" e s
  build_stateful_set_lem (ok sts) s =
      build_listed_lem (λ e. e) pods (build meta "" (replicas_ready sts ∷ []) s)
      ∙ ap (Second.build_listed meta k (λ e. e) pods)
          (build_lem meta "" (replicas_ready sts ∷ []) s)
    where
      pods : Result (List PodStatus)
      pods = k.list_pods sts.template_labels sts.namespace

  build_deployment_lem :
      (depl : Result Deployment) (s : StatusConditions)
      → listed_result (build_deployment meta k depl s)
        ≡ Second.build_deployment meta k depl (as_listed s)
  unfolding build_deployment Second.build_deployment deployment_ready Conditions2.deployment_ready
      of_deployment Conditions2.of_deployment
  build_deployment_lem (err e) s = build_not_created_lem "Deployment" "DeploymentNotFound" e s
  build_deployment_lem (ok depl) s =
      let conds = map of_deployment depl.conditions in
      let ready = deployment_ready meta conds ∷ [] in
      build_listed_lem _ _ (build meta "" ready (build meta "Deployment" conds s))
      ∙ ap (Second.build_listed meta k _ _) (
          build_lem meta "" ready (build meta "Deployment" conds s)
          ∙ ap (Second.build meta "" ready) (build_lem meta "Deployment" conds s))

  -- From what the API server answers for a managed service, a stateful set and a deployment,
  -- whether it is found or not, with its pods listed or not, `conditions2` builds the same
  -- conditions and the same latest transition as `statusConditions`, with the same error.
  pub builders_agree :
      (kind : String) (nn : String × String) (s : StatusConditions)
      → (listed_result (build_from_helm_msvc meta k kind nn s)
          ≡ Second.build_from_helm_msvc meta k kind nn (as_listed s))
        × (listed_result (build_from_statefulset meta k nn s)
            ≡ Second.build_from_statefulset meta k nn (as_listed s))
        × (listed_result (build_from_deployment meta k nn s)
            ≡ Second.build_from_deployment meta k nn (as_listed s))
  unfolding build_from_helm_msvc build_from_statefulset build_from_deployment
      Second.build_from_helm_msvc Second.build_from_statefulset Second.build_from_deployment
  builders_agree kind nn s = (
    build_helm_lem (k.get_msvc kind nn) s,
    build_stateful_set_lem (k.get_stateful_set nn) s,
    build_deployment_lem (k.get_deployment nn) s,
  )
