-- ===== src/Account/Deployments.antt =====
-- controllers/common/account/account_controller.go: `updateDeployments` and `reconDeployments`,
-- which keep a WireGuard deployment for every active region, and show the node ports.
pub mod Refines
use Prim.Native.String.{◌++◌ as ◌<>◌}
use kl_internal_operator.Base.{
  String, Bool, true, false, not, ◌||◌, Option, none, some, List, [], ◌∷◌, length, ◌==◌, ◌!=◌,
  string_eq, nat_beq, if◌then◌else◌,
}
use kl_internal_operator.Base.Integers.{ℤ, pos, int_eq}
use kl_internal_operator.Exec.{Exec, pure, gets, panic, ◌>>=◌, ◌>>◌}
use kl_internal_operator.GoMap.{get}
use kl_internal_operator.Kube.{Error, Result, ok, err, new_error}
use kl_internal_operator.RawJson
use kl_internal_operator.Functions.{as_owner}
use kl_internal_operator.StepResult.{Step}
use kl_internal_operator.Operator.{Object, get_local}
use kl_internal_operator.Request.{on_world, Client, State, after, update_status}
use kl_internal_operator.Request.Reports.{fail_check, pass_check}
use kl_internal_operator.Region.{RegionSpec}
use kl_internal_operator.Management.{
  DeviceSpec, AccountSpec, Service, ServicePort, Local, as_regions, as_devices, as_deployments,
  is_active, wg_namespace,
}
use kl_internal_operator.Account.Fetching.{AccountCluster}
use kl_internal_operator.Account.Keys.{on_display_vars}

abbrev pub wg_deploys_ready : String
wg_deploys_ready = "wg-deployments-ready"

abbrev pub deployment_name : String → String
deployment_name region = "wireguard-deployment-" <> region

-- `deployments[name]`, of the map of the names.
unfoldable pub is_deployed : List String → String → Bool
is_deployed [] name = false
is_deployed (d ∷ ds) name = if d == name then true else is_deployed ds name

module _ {W V B : Type 0} (k : AccountCluster W V B) where
  -- The body of the loop over the regions.
  unfoldable pub update_region :
      List (Object DeviceSpec V B)
      → List String
      → Object RegionSpec V B
      → Exec (State W AccountSpec V B (Local V B)) (Option Error)
  update_region devices deploys r = do
    s ← gets (λ s. s)
    let name = deployment_name r.metadata.name
    if is_active devices r.metadata.name
        then (if is_deployed deploys name
            then pure none
            else on_world (λ w.
              k.apply_deployment w s.object (as_owner r.metadata []) r.metadata.name
                r.spec.is_master))
        else (if is_deployed deploys name
            then on_world (λ w. k.delete_deployment w (wg_namespace s.object.metadata.name) name)
            else pure none)

  unfoldable pub update_regions :
      List (Object DeviceSpec V B)
      → List String
      → List (Object RegionSpec V B)
      → Exec (State W AccountSpec V B (Local V B)) (Option Error)
  update_regions devices deploys [] = pure none
  update_regions devices deploys (r ∷ rs) =
      let rest = update_regions devices deploys rs in
      do sent ← update_region devices deploys r; after sent (λ e. pure (some e)) rest

  unfoldable pub update_deployments : Exec (State W AccountSpec V B (Local V B)) (Option Error)
  update_deployments = do
    s ← gets (λ s. s)
    elim (get_local as_regions s.locals "regions") [
      | none ↦ pure (some (new_error "regions not found"))
      | some regions ↦ elim (get_local as_devices s.locals "devices") [
        | none ↦ pure (some (new_error "devices not found"))
        | some devices ↦ elim (get_local as_deployments s.locals "wg-deployments") [
          | none ↦ pure (some (new_error "cant't find deployments"))
          | some deploys ↦ update_regions devices deploys regions
        ]
      ]
    ]

module _ {W V B : Type 0} (c : Client W AccountSpec V B) (k : AccountCluster W V B) where
  -- The body of the loop over the services; is a display variable written?
  show_node_port : Service → List ServicePort → Exec (State W AccountSpec V B (Local V B)) Bool
  show_node_port svc [] = panic
  show_node_port svc (p ∷ ps) =
      if p.node_port == pos 0 then pure false else elim (get svc.labels "region") [
        | none ↦ pure false
        | some region ↦ (do
          let var = "wg-nodeport-" <> region
          np ← on_display_vars (RawJson.get_string c.json var)
          let write = (do
            _ ← on_display_vars (RawJson.set c.json var (c.json.of_string (k.print p.node_port)))
            pure true)
          elim np [
            | none ↦ write
            | some text ↦ if text != k.print p.node_port then write else pure false
          ])
      ]

  -- The loop over the services; `updated` is `displayVarsUpdated`.
  unfoldable pub show_node_ports :
      Bool → List Service → Exec (State W AccountSpec V B (Local V B)) Bool
  unfolding show_node_port
  show_node_ports updated [] = pure updated
  show_node_ports updated (svc ∷ svcs) = do
    wrote ← show_node_port svc svc.ports
    show_node_ports (wrote || updated) svcs

  unfoldable pub publish_node_ports : List Service → Exec (State W AccountSpec V B (Local V B)) Step
  publish_node_ports svcs = do
    updated ← show_node_ports false svcs
    if updated
        then (do
          _ ← update_status c
          fail_check c wg_deploys_ready "display vars are being updated")
        else pass_check c wg_deploys_ready

  update_and_publish : List Service → Exec (State W AccountSpec V B (Local V B)) Step
  update_and_publish svcs = do
    sent ← update_deployments k
    after sent (λ e. fail_check c wg_deploys_ready e.message) (publish_node_ports svcs)

  -- After a list that was not found there are no services.
  recon_services : List (Object RegionSpec V B) → Exec (State W AccountSpec V B (Local V B)) Step
  recon_services regions = do
    s ← gets (λ s. s)
    elim (k.list_services s.world (wg_namespace s.object.metadata.name)) [
      | err e ↦
          if not e.not_found then fail_check c wg_deploys_ready e.message else update_and_publish []
      | ok svcs ↦
          if nat_beq (length svcs) 0 || not (nat_beq (length svcs) (length regions))
          then update_and_publish svcs
          else publish_node_ports svcs
    ]

  abbrev is_complete : Option (List String) → List (Object RegionSpec V B) → Bool
  is_complete none regions = false
  is_complete (some deploys) regions =
      not (nat_beq (length deploys) 0 || not (nat_beq (length deploys) (length regions)))

  unfoldable pub recon_deployments : Exec (State W AccountSpec V B (Local V B)) Step
  unfolding recon_services update_and_publish
  recon_deployments = do
    s ← gets (λ s. s)
    elim (get_local as_regions s.locals "regions") [
      | none ↦ fail_check c wg_deploys_ready "regions not found"
      | some regions ↦ (do
        sent ←
            (if is_complete (get_local as_deployments s.locals "wg-deployments") regions
              then pure none
              else update_deployments k)
        after sent (λ e. fail_check c wg_deploys_ready e.message) (recon_services regions))
    ]
