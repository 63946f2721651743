-- ===== src/Account.antt =====
-- controllers/common/account/account_controller.go: the controller of accounts, which keeps the
-- WireGuard server of an account, its deployments and its device proxy. What it reads of the
-- cluster and applies to it is the record `AccountCluster`, templates.Parse included.
pub mod Fetching
pub mod Keys
pub mod Config
pub mod Deployments
pub mod Coredns
pub mod ProxyPorts
pub mod Proxy
pub mod Domains
use kl_internal_operator.Base.{String, List, [], ◌∷◌, Option}
use kl_internal_operator.Exec.{Exec, Outcome}
use kl_internal_operator.Kube.{Error, Result}
use kl_internal_operator.Operator.{Object}
use kl_internal_operator.Request.{Client, State, finalize}
use kl_internal_operator.Controller.{Response, reconcile_object, reconcile_fetched}
use kl_internal_operator.Management.{AccountSpec, Local}
use kl_internal_operator.Account.Fetching.{
  AccountCluster, account_ns_ready, recon_namespace, fetch_account,
}
use kl_internal_operator.Account.Keys.{account_wgs_keys_ready, recon_wg_server_key}
use kl_internal_operator.Account.Config.{account_wgs_config_ready, recon_wg_server_config}
use kl_internal_operator.Account.Deployments.{wg_deploys_ready, recon_deployments}
use kl_internal_operator.Account.Coredns.{coredns_deploy_ready, recon_coredns}
use kl_internal_operator.Account.Proxy.{device_proxy_ready, recon_dev_proxy_config}

module _ {W V B : Type 0} (c : Client W AccountSpec V B) (k : AccountCluster W V B) where
  unfoldable pub reconcile_account :
      (Error → Option Error) → Result (Object AccountSpec V B) → W → Outcome Response × W
  reconcile_account ignore_not_found fetched = reconcile_fetched c ignore_not_found fetched (
      reconcile_object c
        (account_ns_ready ∷ account_wgs_keys_ready ∷ account_wgs_config_ready ∷ device_proxy_ready
          ∷ wg_deploys_ready ∷ coredns_deploy_ready ∷ [])
        (finalize c)
        (recon_namespace c k
          ∷ fetch_account k
          ∷ recon_wg_server_key c k
          ∷ recon_wg_server_config c k
          ∷ recon_dev_proxy_config c k
          ∷ recon_deployments c k
          ∷ recon_coredns c k
          ∷ []))
