-- ===== src/Device/Config.antt =====
-- controllers/common/device_controller.go: `reconDeviceConfig`, which applies the WireGuard
-- configuration of a device, one for every region with a node port.
use Prim.Native.String.{◌++◌ as ◌<>◌}
use kl_internal_operator.Base.{
  String, true, not, ◌||◌, Option, none, some, List, [], ◌∷◌, if◌then◌else◌,
}
use kl_internal_operator.Exec.{Exec, Outcome, returned, panicked, pure, gets, or_panic, ◌>>=◌, ◌>>◌}
use kl_internal_operator.GoMap.{GoMap, made, insert}
use kl_internal_operator.Kube.{ok, err}
use kl_internal_operator.RawJson
use kl_internal_operator.RawJson.{RawJson}
use kl_internal_operator.Functions.{as_owner}
use kl_internal_operator.StepResult.{Step}
use kl_internal_operator.Operator.{Object, get_local, has_local}
use kl_internal_operator.Request.{on_world, Client, State, after}
use kl_internal_operator.Request.Reports.{fail_check, pass_check}
use kl_internal_operator.Region.{RegionSpec}
use kl_internal_operator.Management.{
  DeviceSpec, Secret, Local, as_text, as_regions, secret_value, wg_namespace,
}
use kl_internal_operator.Device.Fetching.{DeviceCluster, keep_local}

abbrev pub device_config_synced : String
device_config_synced = "device-config-syncd"

-- The endpoint of a region's server; that of the master region has the name of the device.
unfoldable pub endpoint : {V B : Type 0} → String → Object RegionSpec V B → String → String
endpoint device region node_port =
    if region.spec.is_master
    then device <> (".wg.khost.dev:" <> node_port)
    else region.metadata.name
      <> ("." <> (region.spec.account_name <> (".wg.khost.dev:" <> node_port)))

unfoldable pub config_secret : {V B : Type 0} → Object DeviceSpec V B → GoMap String → Secret
config_secret o configs = record {
  name = "wg-device-config-" <> o.metadata.name;
  namespace = wg_namespace o.spec.account_name;
  labels = made (
      ("kloudlite.io/wg-device-config", "true")
      ∷ ("kloudlite.io/account.name", o.spec.account_name)
      ∷ ("kloudlite.io/device.name", o.metadata.name)
      ∷ []);
  owner_references = as_owner o.metadata (true ∷ []) ∷ [];
  secret_data = configs;
}

-- The server of a region, as `accountServerConfigs` has it.
pub record RegionServer : Type 0 where
  pub region : String
  pub server_endpoint : String
  pub public_key : String

abbrev returned_value : {A : Type 0} → Outcome A → Option A
returned_value (returned a) = some a
returned_value panicked = none

module _ {W V B : Type 0} (c : Client W DeviceSpec V B) where
  -- `GetString` of the display variables of the account; it panics on a text that is no JSON. The
  -- account is not written, and a second read of it reads the same.
  abbrev pub read_var :
      RawJson V B → String → Exec (State W DeviceSpec V B (Local V B)) (Option String)
  read_var vars key = or_panic (returned_value (RawJson.get_string c.json key vars).0)

  -- The loop over the regions: one without a node port is left out.
  unfoldable pub region_servers :
      RawJson V B
      → String
      → String
      → List (Object RegionSpec V B)
      → Exec (State W DeviceSpec V B (Local V B)) (List RegionServer)
  region_servers vars device public_key [] = pure []
  region_servers vars device public_key (region ∷ regions) = do
    node_port ← read_var vars ("wg-nodeport-" <> region.metadata.name)
    rest ← region_servers vars device public_key regions
    pure (elim node_port [
      | none ↦ rest
      | some np ↦
          record {
            region = region.metadata.name;
            server_endpoint = endpoint device region np;
            public_key = public_key;
          }
          ∷ rest
    ])

module _ {W V B : Type 0} (c : Client W DeviceSpec V B) (k : DeviceCluster W V B) where
  -- The loop over the servers: a template that fails is left out.
  unfoldable pub device_configs :
      String → String → String → List RegionServer → List (String × String) → List (String × String)
  device_configs ip private dns [] configs = configs
  device_configs ip private dns (asc ∷ ascs) configs =
      device_configs ip private dns ascs
        (elim (k.parse_device_config (record {
          device_ip = ip;
          device_pvt_key = private;
          server_public_key = asc.public_key;
          server_endpoint = asc.server_endpoint;
          rewrite_rules = dns;
          pod_cidr = k.pod_cidr;
          svc_cidr = k.svc_cidr;
        })) [ err e ↦ configs | ok out ↦ insert ("config-" <> asc.region) out configs ])

  apply_config :
      String
      → String
      → String
      → List (Object RegionSpec V B)
      → RawJson V B
      → Exec (State W DeviceSpec V B (Local V B)) Step
  apply_config ip private dns regions vars = do
    s ← gets (λ s. s)
    public_key ← read_var c vars "wg-public-key"
    elim public_key [
      | none ↦ fail_check c device_config_synced "wg public key not available"
      | some key ↦ (do
        servers ← region_servers c vars s.object.metadata.name key regions
        sent ← on_world (λ w.
            k.apply_secret w
              (config_secret s.object (made (device_configs ip private dns servers []))))
        after sent (λ e. fail_check c device_config_synced e.message)
            (pass_check c device_config_synced))
    ]

  -- With the locals that were tested: the current configuration is read, and kept if it is there.
  config_of_account :
      String
      → String
      → String
      → List (Object RegionSpec V B)
      → Exec (State W DeviceSpec V B (Local V B)) Step
  config_of_account ip private dns regions = do
    s ← gets (λ s. s)
    elim (k.get_account s.world s.object.spec.account_name) [
      | err e ↦ fail_check c device_config_synced e.message
      | ok account ↦ apply_config ip private dns regions account.status.display_vars
    ]

  with_keys : String → List (Object RegionSpec V B) → Exec (State W DeviceSpec V B (Local V B)) Step
  with_keys dns regions = do
    s ← gets (λ s. s)
    elim (get_local as_text s.locals "device-privatekey") [
      | none ↦ fail_check c device_config_synced "PRIVATE KEY NOT FOUND"
      | some private ↦ elim (get_local as_text s.locals "device-ip") [
        | none ↦ fail_check c device_config_synced "DEVICE IP NOT FOUND"
        | some ip ↦ config_of_account ip private dns regions
      ]
    ]

  with_current_config :
      String → List (Object RegionSpec V B) → Exec (State W DeviceSpec V B (Local V B)) Step
  with_current_config dns regions = do
    s ← gets (λ s. s)
    elim (k.get_secret s.world (wg_namespace s.object.spec.account_name)
        ("wg-device-config-" <> s.object.metadata.name)) [
          | err e ↦
              if not e.not_found
              then fail_check c device_config_synced e.message
              else with_keys dns regions
          | ok current ↦ (do keep_local "WGConfig" (secret_value current); with_keys dns regions)
        ]

  unfoldable pub recon_device_config : Exec (State W DeviceSpec V B (Local V B)) Step
  unfolding apply_config config_of_account with_keys with_current_config
  recon_device_config = do
    s ← gets (λ s. s)
    let l = s.locals
    if not (has_local l "device-ip")
          || (not (has_local l "device-privatekey") || not (has_local l "device-publickey"))
        then fail_check c device_config_synced "all configs not found"
        else elim (get_local as_text l "dns-ip") [
          | none ↦ fail_check c device_config_synced "can't get dns"
          | some dns ↦ elim (get_local as_regions l "regions") [
            | none ↦ fail_check c device_config_synced "regions not found"
            | some regions ↦ with_current_config dns regions
          ]
        ]
