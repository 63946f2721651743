-- ===== src/Device.antt =====
-- controllers/common/device_controller.go: the controller of devices, which keeps the WireGuard
-- keys, the services, the DNS rules and the WireGuard configuration of a device. What it reads of
-- the cluster and applies to it is the record `DeviceCluster`, templates.Parse included.
pub mod Fetching
pub mod Services
pub mod Keys
pub mod Config
pub mod Dns
pub mod Ports
use kl_internal_operator.Base.{String, List, [], ◌∷◌, Option, none}
use kl_internal_operator.Exec.{Exec, Outcome}
use kl_internal_operator.Kube.{Error, Result}
use kl_internal_operator.StepResult.{Step}
use kl_internal_operator.Operator.{Object}
use kl_internal_operator.Request.{Client, State, finalize}
use kl_internal_operator.Controller.{Response, reconcile_object, reconcile_fetched}
use kl_internal_operator.Management.{DeviceSpec, Local}
use kl_internal_operator.Device.Fetching.{DeviceCluster, fetch_required}
use kl_internal_operator.Device.Services.{recon_sync_services, services_synced}
use kl_internal_operator.Device.Keys.{recon_wg_keys, wg_keys_ready}
use kl_internal_operator.Device.Config.{recon_device_config, device_config_synced}
use kl_internal_operator.Device.Dns.{recon_dns_rewrite_rules, dns_rewrite_rules_synced}

module _ {W V B : Type 0} (c : Client W DeviceSpec V B) (k : DeviceCluster W V B) where
  unfoldable pub reconcile_device :
      (Error → Option Error) → Result (Object DeviceSpec V B) → W → Outcome Response × W
  reconcile_device ignore_not_found fetched = reconcile_fetched c ignore_not_found fetched (
      reconcile_object c
        (wg_keys_ready ∷ services_synced ∷ dns_rewrite_rules_synced ∷ device_config_synced ∷ [])
        (finalize c)
        (fetch_required k
          ∷ recon_wg_keys c k
          ∷ recon_sync_services c k
          ∷ recon_dns_rewrite_rules c k
          ∷ recon_device_config c k
          ∷ []))
