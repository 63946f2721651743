-- ===== src/Account/Proxy.antt =====
-- controllers/common/account/account_controller.go: `reconDevProxyConfig`, which keeps the
-- configuration of the device proxy and sends it to the active regions.
use kl_internal_operator.Base.{String, Bool, true, not, none, some, List, [], ◌∷◌, if◌then◌else◌}
use kl_internal_operator.Exec.{Exec, gets, panic, ◌>>=◌, ◌>>◌}
use kl_internal_operator.GoMap.{made, get}
use kl_internal_operator.Kube.{ok, err}
use kl_internal_operator.Functions.{as_owner, or_zero}
use kl_internal_operator.StepResult.{Step}
use kl_internal_operator.Operator.{Object, get_local}
use kl_internal_operator.Request.{on_world, Client, State, after}
use kl_internal_operator.Request.Reports.{fail_check, pass_check}
use kl_internal_operator.Management.{
  DeviceSpec, AccountSpec, ConfigService, Local, as_regions, as_devices, sort_by, wg_namespace,
}
use kl_internal_operator.Account.Fetching.{AccountCluster, ConfigMap, account_name_key}
use kl_internal_operator.Account.Config.{post_all}
use kl_internal_operator.Account.ProxyPorts.{config_data, new_configs}

abbrev pub device_proxy_ready : String
device_proxy_ready = "device-proxy-ready"

-- The config map that is created and updated, with its text.
abbrev pub proxy_config : {V B : Type 0} → Object AccountSpec V B → String → ConfigMap
proxy_config o json = record {
  name = "device-proxy-config";
  namespace = wg_namespace o.metadata.name;
  annotations = made ((account_name_key, o.metadata.name) ∷ []);
  owner_references = as_owner o.metadata [] ∷ [];
  config_data = made (("config.json", json) ∷ []);
}

module _ {W V B : Type 0} (c : Client W AccountSpec V B) (k : AccountCluster W V B) where
  create_config : Exec (State W AccountSpec V B (Local V B)) Step
  create_config = do
    s ← gets (λ s. s)
    sent ← on_world (λ w. k.create_config_map w (proxy_config s.object "{\"services\":[]}"))
    after sent (λ e. fail_check c device_proxy_ready e.message)
        (fail_check c device_proxy_ready "services are not upto date")

  -- The posts, where the update went well.
  post_proxy_config :
      List (Object DeviceSpec V B) → String → Exec (State W AccountSpec V B (Local V B)) Step
  post_proxy_config devices json = do
    s ← gets (λ s. s)
    elim (get_local as_regions s.locals "regions") [
      | none ↦ fail_check c device_proxy_ready "regions not found"
      | some regions ↦ (do
        post_all k s.object.metadata.name "2999" json devices regions
        pass_check c device_proxy_ready)
    ]

  -- A failed update is reported with the error of the marshalling, which is nil: a panic.
  update_proxy_config :
      List (Object DeviceSpec V B)
      → List ConfigService
      → Exec (State W AccountSpec V B (Local V B)) Step
  unfolding post_proxy_config
  update_proxy_config devices configs = do
    s ← gets (λ s. s)
    elim (k.print_services (k.sort_configs configs)) [
      | err e ↦ fail_check c device_proxy_ready e.message
      | ok json ↦ (do
        sent ← on_world (λ w. k.update_config_map w (proxy_config s.object json))
        after sent (λ e. panic) (post_proxy_config devices json))
    ]

  -- No entries count as no change.
  abbrev is_equal : List ConfigService → Bool → Bool
  is_equal [] equal = true
  is_equal (cs ∷ css) equal = equal

  compare_config :
      String
      → List (Object DeviceSpec V B)
      → List ConfigService
      → Exec (State W AccountSpec V B (Local V B)) Step
  unfolding update_proxy_config
  compare_config old devices configs = elim (k.print_services configs) [
    | err e ↦ fail_check c device_proxy_ready e.message
    | ok json ↦ elim (k.json_equal old json) [
      | err e ↦ fail_check c device_proxy_ready e.message
      | ok equal ↦
          if not (is_equal configs equal)
          then update_proxy_config devices configs
          else pass_check c device_proxy_ready
    ]
  ]

  -- With the text of the old configuration and its entries.
  unfoldable pub refresh_config :
      String → List ConfigService → Exec (State W AccountSpec V B (Local V B)) Step
  unfolding compare_config
  refresh_config old services = do
    s ← gets (λ s. s)
    elim (get_local as_devices s.locals "devices") [
      | none ↦ fail_check c device_proxy_ready "devices not found"
      | some devices ↦ (do
        let sorted = sort_by (λ d. d.metadata.name) devices
        configs ←
            on_world (new_configs k.rand_intn k.ip_at k.print (config_data services []) sorted)
        compare_config old sorted (k.sort_configs configs))
    ]

  unfoldable pub recon_dev_proxy_config : Exec (State W AccountSpec V B (Local V B)) Step
  unfolding create_config
  recon_dev_proxy_config = do
    s ← gets (λ s. s)
    elim (k.get_config_map s.world (wg_namespace s.object.metadata.name) "device-proxy-config") [
      | err e ↦ if not e.not_found then fail_check c device_proxy_ready e.message else create_config
      | ok conf ↦
          (let old = or_zero "" (get conf.config_data "config.json") in
            elim (k.parse_services old) [
              | err e ↦ fail_check c device_proxy_ready "can't unmarshal config.json"
              | ok parsed ↦ refresh_config old (or_zero [] (get parsed "services"))
            ])
    ]
