-- ===== src/Account/Keys.antt =====
-- controllers/common/account/account_controller.go: `reconWGServerKey`, which makes the keys of the
-- account's WireGuard server, and shows the public one.
use kl_internal_operator.Base.{
  String, true, not, Option, none, some, [], ◌∷◌, ◌!=◌, string_eq, if◌then◌else◌,
}
use kl_internal_operator.Exec.{Exec, gets, ◌>>=◌, ◌>>◌}
use kl_internal_operator.GoMap.{nil_map, made, get}
use kl_internal_operator.Kube.{Error, ok, err}
use kl_internal_operator.RawJson
use kl_internal_operator.RawJson.{RawJson}
use kl_internal_operator.Functions.{as_owner, or_zero}
use kl_internal_operator.StepResult.{Step}
use kl_internal_operator.Request.{on_world, Client, State, after, with_status, update_status}
use kl_internal_operator.Request.Reports.{fail_check, pass_check}
use kl_internal_operator.Management.{AccountSpec, Local, text, wg_namespace}
use kl_internal_operator.Device.Fetching.{keep_local}
use kl_internal_operator.Account.Fetching.{AccountCluster}

abbrev pub account_wgs_keys_ready : String
account_wgs_keys_ready = "wg-server-keys-ready"

abbrev pub public_key_var : String
public_key_var = "wg-public-key"

-- Run a method of the display variables, and store what it leaves there.
abbrev pub on_display_vars :
    {W V B A : Type 0} → Exec (RawJson V B) A → Exec (State W AccountSpec V B (Local V B)) A
on_display_vars m s =
    let (r, vars) = m s.object.status.display_vars in
    (r, with_status (λ st. record st { display_vars = vars }) s)

module _ {W V B : Type 0} (c : Client W AccountSpec V B) (k : AccountCluster W V B) where
  show_key : String → Exec (State W AccountSpec V B (Local V B)) (Option Error)
  show_key key = on_display_vars (RawJson.set c.json public_key_var (c.json.of_string key))

  create_keys : Exec (State W AccountSpec V B (Local V B)) Step
  unfolding show_key
  create_keys = do
    s ← gets (λ s. s)
    keys ← on_world k.generate_wg_keys
    elim keys [
      | err e ↦ fail_check c account_wgs_keys_ready e.message
      | ok (public, private) ↦ (do
        sent ← on_world (λ w. k.create_secret w (record {
          name = "wg-server-keys";
          namespace = wg_namespace s.object.metadata.name;
          labels = nil_map;
          owner_references = as_owner s.object.metadata (true ∷ []) ∷ [];
          secret_data = made (("private-key", private) ∷ ("public-key", public) ∷ []);
        }))
        after sent (λ e. fail_check c account_wgs_keys_ready e.message)
            (do
              _ ← show_key public
              _ ← update_status c
              fail_check c account_wgs_keys_ready "keys are being generated"))
    ]

  unfoldable pub recon_wg_server_key : Exec (State W AccountSpec V B (Local V B)) Step
  unfolding create_keys show_key
  recon_wg_server_key = do
    s ← gets (λ s. s)
    elim (k.get_secret s.world (wg_namespace s.object.metadata.name) "wg-server-keys") [
      | err e ↦
          if not e.not_found then fail_check c account_wgs_keys_ready e.message else create_keys
      | ok keys ↦ (do
        let public = or_zero "" (get keys.secret_data "public-key")
        keep_local "wg-private-key" (text (or_zero "" (get keys.secret_data "private-key")))
        existing ← on_display_vars (RawJson.get_string c.json public_key_var)
        elim existing [
          | none ↦ (do
            _ ← show_key public
            fail_check c account_wgs_keys_ready "keys are being generated")
          | some key ↦
              if public != key
              then (do
                _ ← show_key public
                _ ← update_status c
                fail_check c account_wgs_keys_ready "keys are being generated")
              else pass_check c account_wgs_keys_ready
        ])
    ]
