-- ===== src/Device/Keys.antt =====
-- controllers/common/device_controller.go: `reconWgKeys`, which makes the WireGuard keys of a
-- device with its address, and reads them into the scratch map.
use kl_internal_operator.Base.{String, true, not, some, [], ◌∷◌, if◌then◌else◌}
use kl_internal_operator.Exec.{Exec, gets, ◌>>=◌, ◌>>◌}
use kl_internal_operator.GoMap.{made, get}
use kl_internal_operator.Kube.{ok, err}
use kl_internal_operator.Functions.{as_owner, or_zero}
use kl_internal_operator.StepResult.{Step}
use kl_internal_operator.Operator.{Object}
use kl_internal_operator.Request.{on_world, Client, State, after, fail_with_op_error}
use kl_internal_operator.Request.Reports.{fail_check, pass_check}
use kl_internal_operator.Management.{
  DeviceSpec, Secret, Local, text, get_remote_device_ip, wg_namespace,
}
use kl_internal_operator.Device.Fetching.{DeviceCluster, keep_local}
use Prim.Native.String.{◌++◌ as ◌<>◌}

abbrev pub wg_keys_ready : String
wg_keys_ready = "wireguard-keys-ready"

unfoldable pub keys_secret :
    {V B : Type 0} → Object DeviceSpec V B → String × String → String → Secret
keys_secret o (public, private) ip = record {
  name = "wg-device-keys-" <> o.metadata.name;
  namespace = wg_namespace o.spec.account_name;
  labels =
      made
        (("kloudlite.io/is-wg-key", "true") ∷ ("kloudlite.io/device.name", o.metadata.name) ∷ []);
  owner_references = as_owner o.metadata (true ∷ []) ∷ [];
  secret_data = made (("private-key", private) ∷ ("public-key", public) ∷ ("ip", ip) ∷ []);
}

module _ {W V B : Type 0} (c : Client W DeviceSpec V B) (k : DeviceCluster W V B) where
  generate_keys : Exec (State W DeviceSpec V B (Local V B)) Step
  generate_keys = do
    s ← gets (λ s. s)
    keys ← on_world k.generate_wg_keys
    elim keys [
      | err e ↦ fail_with_op_error c (some e) []
      | ok pair ↦ elim (get_remote_device_ip k.ip_at s.object.spec.offset) [
        | err e ↦ fail_with_op_error c (some e) []
        | ok ip ↦ (do
          sent ← on_world (λ w. k.apply_secret w (keys_secret s.object pair ip))
          after sent (λ e. fail_check c wg_keys_ready e.message)
              (fail_check c wg_keys_ready "generating wg keys"))
      ]
    ]

  unfoldable pub recon_wg_keys : Exec (State W DeviceSpec V B (Local V B)) Step
  unfolding generate_keys
  recon_wg_keys = do
    s ← gets (λ s. s)
    elim (k.get_secret s.world (wg_namespace s.object.spec.account_name)
        ("wg-device-keys-" <> s.object.metadata.name)) [
          | err e ↦ if not e.not_found then fail_check c wg_keys_ready e.message else generate_keys
          | ok secret ↦ (do
            keep_local "device-ip" (text (or_zero "" (get secret.secret_data "ip")))
            keep_local "device-publickey" (text (or_zero "" (get secret.secret_data "public-key")))
            keep_local "device-privatekey"
                (text (or_zero "" (get secret.secret_data "private-key")))
            pass_check c wg_keys_ready)
        ]
