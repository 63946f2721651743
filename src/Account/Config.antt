-- ===== src/Account/Config.antt =====
-- controllers/common/account/account_controller.go: `reconWGServerConfig`, which keeps the
-- configuration of the account's WireGuard server and sends it to the active regions.
use Prim.Native.String.{◌++◌ as ◌<>◌}
use kl_internal_operator.Base.{
  String, Option, none, some, List, [], ◌∷◌, ◌!=◌, string_eq, if◌then◌else◌,
}
use kl_internal_operator.Exec.{Exec, pure, gets, panic, ◌>>=◌, ◌>>◌}
use kl_internal_operator.GoMap.{nil_map, made, get}
use kl_internal_operator.Kube.{Error, ok, err}
use kl_internal_operator.Functions.{or_zero}
use kl_internal_operator.StepResult.{Step}
use kl_internal_operator.Operator.{Object, get_local}
use kl_internal_operator.Request.{on_world, Client, State, after}
use kl_internal_operator.Request.Reports.{fail_check}
use kl_internal_operator.Region.{RegionSpec}
use kl_internal_operator.Management.{
  DeviceSpec, AccountSpec, Secret, Local, as_text, as_regions, as_devices, is_active, sort_by,
  wg_namespace,
}
use kl_internal_operator.Account.Fetching.{AccountCluster, Peer, pass_and_go_on}

abbrev pub account_wgs_config_ready : String
account_wgs_config_ready = "wg-server-config-ready"

-- The loop over the secrets of the devices: one without an address or a key is left out.
unfoldable pub peers_of : List Secret → List Peer
peers_of [] = []
peers_of (device ∷ devices) =
    let rest = peers_of devices in
    elim (get device.secret_data "ip") [
      | none ↦ rest
      | some ip ↦ elim (get device.secret_data "public-key") [
        | none ↦ rest
        | some key ↦ record { public_key = key; allowed_ips = ip <> "/32" } ∷ rest
      ]
    ]

abbrev pub config_secret : String → String → Secret
config_secret namespace config = record {
  name = "wg-server-config";
  namespace = namespace;
  labels = nil_map;
  owner_references = [];
  secret_data = made (("data", config) ∷ []);
}

-- `http://wg-api-service-<region>.wg-<account>.svc.cluster.local:<port>/post`
abbrev pub api_url : String → String → String → String
api_url region account port =
    "http://wg-api-service-"
    <> (region <> (".wg-" <> (account <> (".svc.cluster.local:" <> (port <> "/post")))))

module _ {W V B : Type 0} (k : AccountCluster W V B) where
  -- The loop over the regions; an error is only logged.
  unfoldable pub post_all :
      String
      → String
      → String
      → List (Object DeviceSpec V B)
      → List (Object RegionSpec V B)
      → Exec (State W AccountSpec V B (Local V B)) (Unit {0})
  post_all account port body devices [] = pure tt
  post_all account port body devices (region ∷ regions) =
      let rest = post_all account port body devices regions in
      if is_active devices region.metadata.name
      then (do _ ← on_world (λ w. k.post w (api_url region.metadata.name account port) body); rest)
      else rest

module _ {W V B : Type 0} (c : Client W AccountSpec V B) (k : AccountCluster W V B) where
  abbrev failed : String → Exec (State W AccountSpec V B (Local V B)) Step
  failed = fail_check c account_wgs_config_ready

  -- Both failures report the error of the earlier read: after a read that found the configuration
  -- there is none, and its text is a panic.
  fail_with_earlier : Option Error → Exec (State W AccountSpec V B (Local V B)) Step
  fail_with_earlier none = panic
  fail_with_earlier (some e) = failed e.message

  send_config : String → Exec (State W AccountSpec V B (Local V B)) Step
  send_config config = do
    s ← gets (λ s. s)
    elim (get_local as_regions s.locals "regions") [
      | none ↦ failed "regions not found"
      | some regions ↦ elim (get_local as_devices s.locals "devices") [
        | none ↦ failed "devices not found"
        | some devices ↦ (do
          post_all k s.object.metadata.name "2998" config devices regions
          pass_and_go_on c account_wgs_config_ready)
      ]
    ]

  -- `client.Update` and the posts.
  update_config : Option Error → String → Exec (State W AccountSpec V B (Local V B)) Step
  unfolding fail_with_earlier send_config
  update_config earlier config = do
    s ← gets (λ s. s)
    sent ←
        on_world
          (λ w. k.update_secret w (config_secret (wg_namespace s.object.metadata.name) config))
    after sent (λ e. fail_with_earlier earlier) (send_config config)

  -- A configuration that was not found, or whose read failed, is created and then updated.
  unfoldable pub write_config : String → Exec (State W AccountSpec V B (Local V B)) Step
  unfolding update_config fail_with_earlier
  write_config config = do
    s ← gets (λ s. s)
    let namespace = wg_namespace s.object.metadata.name
    elim (k.get_secret s.world namespace "wg-server-config") [
      | err e ↦ (do
        sent ← on_world (λ w. k.create_secret w (config_secret namespace config))
        after sent (λ e'. fail_with_earlier (some e)) (update_config (some e) config))
      | ok existing ↦
          if or_zero "" (get existing.secret_data "data") != config
          then update_config none config
          else pass_and_go_on c account_wgs_config_ready
    ]

  unfoldable pub recon_wg_server_config : Exec (State W AccountSpec V B (Local V B)) Step
  recon_wg_server_config = do
    s ← gets (λ s. s)
    elim (get_local as_text s.locals "wg-private-key") [
      | none ↦ failed "can't find wireguard private key"
      | some private ↦ elim (k.list_device_secrets s.world (wg_namespace s.object.metadata.name)) [
        | err e ↦ failed e.message
        | ok secrets ↦
            elim (k.parse_server_config (record {
              account_wireguard_ip = "10.13.13.1/32";
              account_wireguard_pvt_key = private;
              peers = peers_of (sort_by (λ secret. secret.name) secrets);
            })) [ err e ↦ failed e.message | ok config ↦ write_config config ]
      ]
    ]
