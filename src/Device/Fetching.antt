-- ===== src/Device/Fetching.antt =====
-- controllers/common/device_controller.go: what the steps of a device share, and `fetchRequired`,
-- which reads the regions and the DNS into the scratch map; its errors are only logged.
use kl_internal_operator.Base.{String, Option, List, [], ◌∷◌}
use kl_internal_operator.Base.Integers.{ℤ}
use kl_internal_operator.Exec.{Exec, pure, gets, modify, ◌>>=◌, ◌>>◌}
use kl_internal_operator.GoMap.{GoMap, get}
use kl_internal_operator.Kube.{Error, Result, ok, err}
use kl_internal_operator.Functions.{or_zero}
use kl_internal_operator.StepResult.{Step}
use kl_internal_operator.Operator.{Object, set_local}
use kl_internal_operator.Request.{State, proceed}
use kl_internal_operator.Region.{RegionSpec}
use kl_internal_operator.Management.{
  DeviceSpec, AccountSpec, ConfigService, Secret, Service, Local, text, region_list, wg_namespace,
}

-- The arguments of the template of a device's WireGuard configuration.
pub record DeviceConfig : Type 0 where
  pub device_ip : String
  pub device_pvt_key : String
  pub server_public_key : String
  pub server_endpoint : String
  pub rewrite_rules : String
  pub pod_cidr : String
  pub svc_cidr : String

-- `get_config_map`, `get_service` and `get_secret` take the namespace and the name, and give the
-- data, the service and the secret; `list_devices` takes the label of the account. The unmarshal
-- of the old device names drops its error, and leaves what it has read.
pub record DeviceCluster (W V B : Type 0) : Type 0 where
  pub list_regions : W → Result (List (Object RegionSpec V B))
  pub list_devices : W → String → Result (List (Object DeviceSpec V B))
  pub get_account : W → String → Result (Object AccountSpec V B)
  pub get_config_map : W → String → String → Result (GoMap String)
  pub get_service : W → String → String → Result Service
  pub get_secret : W → String → String → Result Secret
  pub generate_wg_keys : W → Result (String × String) × W
  pub ip_at : ℤ → Result String
  pub print : ℤ → String
  pub parse_services : String → Result (GoMap (List ConfigService))
  pub parse_names : String → List String
  pub parse_device_config : DeviceConfig → Result String
  pub apply_service : W → Service → Option Error × W
  pub apply_secret : W → Secret → Option Error × W
  pub apply_dns : W → Object AccountSpec V B → List String → String → String → Option Error × W
  pub pod_cidr : String
  pub svc_cidr : String

module _ {W S V B : Type 0} where
  abbrev pub keep_local : String → Local V B → Exec (State W S V B (Local V B)) (Unit {0})
  keep_local key value = modify (λ s. record s { locals = set_local s.locals key value })

module _ {W V B : Type 0} (k : DeviceCluster W V B) where
  -- An empty list is no error and is not kept.
  fetch_regions : Exec (State W DeviceSpec V B (Local V B)) (Unit {0})
  fetch_regions = do
    s ← gets (λ s. s)
    elim (k.list_regions s.world) [
      | err e ↦ pure tt
      | ok [] ↦ pure tt
      | ok (r ∷ rs) ↦ keep_local "regions" (region_list (r ∷ rs))
    ]

  fetch_dns_devices : Exec (State W DeviceSpec V B (Local V B)) (Unit {0})
  fetch_dns_devices = do
    s ← gets (λ s. s)
    elim (k.get_config_map s.world (wg_namespace s.object.spec.account_name) "coredns") [
      | err e ↦ pure tt
      | ok conf ↦ keep_local "dns-devices" (text (or_zero "" (get conf "devices")))
    ]

  fetch_dns_ip : Exec (State W DeviceSpec V B (Local V B)) (Unit {0})
  fetch_dns_ip = do
    s ← gets (λ s. s)
    elim (k.get_service s.world (wg_namespace s.object.spec.account_name) "coredns") [
      | err e ↦ pure tt
      | ok svc ↦ keep_local "dns-ip" (text svc.cluster_ip)
    ]

  unfoldable pub fetch_required : Exec (State W DeviceSpec V B (Local V B)) Step
  unfolding fetch_regions fetch_dns_devices fetch_dns_ip
  fetch_required = do fetch_regions; fetch_dns_devices; fetch_dns_ip; pure proceed
