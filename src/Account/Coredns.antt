-- ===== src/Account/Coredns.antt =====
-- controllers/common/account/account_controller.go: `reconCoredns`, which applies the DNS of the
-- account where there is none.
use kl_internal_operator.Base.{
  String, Bool, true, false, not, none, some, List, [], ◌∷◌, ◌==◌, string_eq, if◌then◌else◌,
}
use kl_internal_operator.Exec.{Exec, gets, ◌>>=◌}
use kl_internal_operator.Kube.{Result, ok, err}
use kl_internal_operator.Functions.{as_owner}
use kl_internal_operator.StepResult.{Step}
use kl_internal_operator.Operator.{Object, get_local}
use kl_internal_operator.Request.{on_world, Client, State, after}
use kl_internal_operator.Request.Reports.{fail_check, pass_check}
use kl_internal_operator.Region.{RegionSpec}
use kl_internal_operator.Management.{AccountSpec, Local, as_regions, wg_namespace}
use kl_internal_operator.Account.Fetching.{AccountCluster, ConfigMap}

abbrev pub coredns_deploy_ready : String
coredns_deploy_ready = "coredns-deployment-ready"

-- The last region of kl-core.
unfoldable pub kl_region : {V B : Type 0} → String → List (Object RegionSpec V B) → String
kl_region found [] = found
kl_region found (reg ∷ regions) =
    kl_region (if reg.spec.account_name == "kl-core" then reg.metadata.name else found) regions

config_exists : Result ConfigMap → Bool
config_exists (ok conf) = true
config_exists (err e) = false

module _ {W V B : Type 0} (c : Client W AccountSpec V B) (k : AccountCluster W V B) where
  unfoldable pub recon_coredns : Exec (State W AccountSpec V B (Local V B)) Step
  unfolding config_exists
  recon_coredns = do
    s ← gets (λ s. s)
    let namespace = wg_namespace s.object.metadata.name
    elim (k.get_deployment s.world namespace "coredns") [
      | none ↦ pass_check c coredns_deploy_ready
      | some e ↦
          if not e.not_found
          then fail_check c coredns_deploy_ready e.message
          else elim (get_local as_regions s.locals "regions") [
            | none ↦ fail_check c coredns_deploy_ready "regions not found"
            | some regions ↦ (do
              sent ← on_world (λ w.
                  k.apply_coredns w s.object
                    (config_exists (k.get_config_map s.world namespace "coredns"))
                    (as_owner s.object.metadata (true ∷ []) ∷ []) (kl_region "" regions))
              after sent (λ e. fail_check c coredns_deploy_ready e.message)
                  (pass_check c coredns_deploy_ready))
          ]
    ]
