-- ===== src/Account/Fetching.antt =====
-- controllers/common/account/account_controller.go: what the steps of an account share;
-- `reconNamespace`, and `fetchRequired`, which reads regions, devices and deployments into the
-- scratch map. A list that cannot be read is only logged, and stays empty.

use kl_internal_operator.Base.{
  ℕ, String, Bool, true, not, Option, none, some, List, [], ◌∷◌, ◌++◌, ◌!=◌, if◌then◌else◌,
}
use kl_internal_operator.Base.Integers.{ℤ}
use kl_internal_operator.Exec.{Exec, pure, gets, ◌>>=◌, ◌>>◌}
use kl_internal_operator.GoMap.{GoMap, made, get}
use kl_internal_operator.Kube.{Error, Result, ok, err, OwnerReference}
use kl_internal_operator.Functions.{as_owner, or_zero}
use kl_internal_operator.StepResult.{Step}
use kl_internal_operator.Operator.{Object, zero_check, check_eq}
use kl_internal_operator.Request.{on_world, Client, State, after, proceed, set_check, update_status}
use kl_internal_operator.Request.Reports.{fail_check, current_check}
use kl_internal_operator.Region.{RegionSpec}
use kl_internal_operator.Management.{
  DeviceSpec, AccountSpec, ConfigService, Secret, Service, Local, region_list, device_list,
  deployment_list, wg_namespace,
}
use kl_internal_operator.Device.Fetching.{keep_local}

-- corev1.ConfigMap
pub record ConfigMap : Type 0 where
  pub name : String
  pub namespace : String
  pub annotations : GoMap String
  pub owner_references : List OwnerReference
  pub config_data : GoMap String

pub record Peer : Type 0 where
  pub public_key : String
  pub allowed_ips : String

-- The arguments of the template of the WireGuard server's configuration.
pub record ServerConfig : Type 0 where
  pub account_wireguard_ip : String
  pub account_wireguard_pvt_key : String
  pub peers : List Peer

-- What the controller reads of the cluster, applies to it, and asks of the libraries. `get_` takes
-- the namespace and the name; `list_regions` and `list_devices` take the label of the account, the
-- other lists the namespace. `post` is http.Post with the address and the body, `rand_intn` is
-- rand.Intn, and `sort_configs` is sort.Slice by the name, which leaves open how it orders entries
-- of one name.
pub record AccountCluster (W V B : Type 0) : Type 0 where
  pub get_namespace : W → String → Option Error
  pub create_namespace : W → String → GoMap String → List OwnerReference → Option Error × W
  pub list_regions : W → String → Result (List (Object RegionSpec V B))
  pub get_region : W → String → Result (Object RegionSpec V B)
  pub list_devices : W → String → Result (List (Object DeviceSpec V B))
  pub list_deployments : W → String → Result (List String)
  pub list_device_secrets : W → String → Result (List Secret)
  pub list_services : W → String → Result (List Service)
  pub get_secret : W → String → String → Result Secret
  pub create_secret : W → Secret → Option Error × W
  pub update_secret : W → Secret → Option Error × W
  pub get_config_map : W → String → String → Result ConfigMap
  pub create_config_map : W → ConfigMap → Option Error × W
  pub update_config_map : W → ConfigMap → Option Error × W
  pub get_deployment : W → String → String → Option Error
  pub delete_deployment : W → String → String → Option Error × W
  pub apply_deployment :
      W → Object AccountSpec V B → OwnerReference → String → Bool → Option Error × W
  pub apply_coredns :
      W → Object AccountSpec V B → Bool → List OwnerReference → String → Option Error × W
  pub post : W → String → String → Option Error × W
  pub generate_wg_keys : W → Result (String × String) × W
  pub rand_intn : W → ℕ → ℕ × W
  pub ip_at : ℤ → Result String
  pub print : ℤ → String
  pub parse_server_config : ServerConfig → Result String
  pub parse_services : String → Result (GoMap (List ConfigService))
  pub print_services : List ConfigService → Result String
  pub json_equal : String → String → Result Bool
  pub sort_configs : List ConfigService → List ConfigService

abbrev pub account_ns_ready : String
account_ns_ready = "namespace-ready"

abbrev pub account_name_key : String
account_name_key = "kloudlite.io/account.name"

abbrev pub or_empty : {A : Type 0} → Result (List A) → List A
or_empty (ok l) = l
or_empty (err e) = []

module _ {W V B : Type 0} (c : Client W AccountSpec V B) where
  -- The check passes, and the answer of `UpdateStatus` is dropped.
  unfoldable pub pass_and_go_on : String → Exec (State W AccountSpec V B (Local V B)) Step
  pass_and_go_on name = do
    s ← gets (λ s. s)
    let check = record (current_check s) { status = true }
    if check != or_zero zero_check (get s.object.status.checks name)
        then (do set_check name check; _ ← update_status c; pure proceed)
        else pure proceed

module _ {W V B : Type 0} (c : Client W AccountSpec V B) (k : AccountCluster W V B) where
  unfoldable pub recon_namespace : Exec (State W AccountSpec V B (Local V B)) Step
  recon_namespace = do
    s ← gets (λ s. s)
    let name = s.object.metadata.name
    elim (k.get_namespace s.world (wg_namespace name)) [
      | none ↦ pass_and_go_on c account_ns_ready
      | some e ↦ if not e.not_found then fail_check c account_ns_ready e.message else (do
        sent ← on_world (λ w.
            k.create_namespace w (wg_namespace name) (made ((account_name_key, name) ∷ []))
              (as_owner s.object.metadata (true ∷ []) ∷ []))
        after sent (λ e. fail_check c account_ns_ready e.message)
            (fail_check c account_ns_ready "namespacef for account is scheduled to create"))
    ]

module _ {W V B : Type 0} (k : AccountCluster W V B) where
  -- The regions of the account, the master region, and those of kl-core.
  unfoldable pub fetched_regions : W → String → List (Object RegionSpec V B)
  fetched_regions w account =
      or_empty (k.list_regions w account)
      ++ (elim (k.get_region w "master") [ ok master ↦ master ∷ [] | err e ↦ [] ]
          ++ or_empty (k.list_regions w "kl-core"))

  keep_regions :
      List (Object RegionSpec V B) → Exec (State W AccountSpec V B (Local V B)) (Unit {0})
  keep_regions [] = pure tt
  keep_regions (r ∷ rs) = keep_local "regions" (region_list (r ∷ rs))

  unfoldable pub fetch_account : Exec (State W AccountSpec V B (Local V B)) Step
  unfolding keep_regions
  fetch_account = do
    s ← gets (λ s. s)
    let name = s.object.metadata.name
    keep_regions (fetched_regions s.world name)
    keep_local "devices" (device_list (or_empty (k.list_devices s.world name)))
    keep_local "wg-deployments"
        (deployment_list (or_empty (k.list_deployments s.world (wg_namespace name))))
    pure proceed
