-- ===== src/Device/Dns.antt =====
-- controllers/common/device_controller.go: `reconDnsRewriteRules`, which applies the DNS rules of
-- the devices of the account when their names differ from those that the DNS has.
use Prim.Native.String.{compare, ◌++◌ as ◌<>◌}
use Prim.Native.Nat.{lt, eq, gt}
use kl_internal_operator.Base.{
  String, Bool, true, false, not, Option, none, some, List, [], ◌∷◌, map, length, ◌==◌, ◌!=◌,
  string_eq, nat_beq, if◌then◌else◌,
}
use kl_internal_operator.Exec.{Exec, pure, gets, panic, ◌>>=◌, ◌>>◌}
use kl_internal_operator.Kube.{Error, ok, err, new_error}
use kl_internal_operator.Functions.{or_zero}
use kl_internal_operator.StepResult.{Step}
use kl_internal_operator.Operator.{Object, get_local}
use kl_internal_operator.Request.{on_world, Client, State, after}
use kl_internal_operator.Request.Reports.{fail_check, pass_check}
use kl_internal_operator.Management.{
  DeviceSpec, Local, device_list, as_text, as_devices, wg_namespace,
}
use kl_internal_operator.Device.Fetching.{DeviceCluster, keep_local}

abbrev pub dns_rewrite_rules_synced : String
dns_rewrite_rules_synced = "dns-rewrite-rules-syncd"

-- sort.Strings
insert_up : String → List String → List String
insert_up s [] = s ∷ []
insert_up s (t ∷ ts) =
    let rest = insert_up s ts in
    elim (compare t s) [ lt ↦ t ∷ rest | eq ↦ s ∷ t ∷ ts | gt ↦ s ∷ t ∷ ts ]

unfoldable pub sort_strings : List String → List String
unfolding insert_up
sort_strings [] = []
sort_strings (s ∷ ss) = insert_up s (sort_strings ss)

-- The loop of the comparison, on lists of one length.
unfoldable pub all_equal : List String → List String → Bool
all_equal [] old = true
all_equal (d ∷ ds) [] = true
all_equal (d ∷ ds) (o ∷ old) = if d != o then false else all_equal ds old

unfoldable pub same_names : List String → List String → Bool
unfolding all_equal
same_names d old = if not (nat_beq (length old) (length d)) then false else all_equal d old

abbrev pub device_names : {V B : Type 0} → List (Object DeviceSpec V B) → List String
device_names = map (λ device. device.metadata.name)

unfoldable pub rewrite_rules : {V B : Type 0} → List (Object DeviceSpec V B) → String
rewrite_rules [] = ""
rewrite_rules (device ∷ devices) =
    let name = device.metadata.name in
    let rest = rewrite_rules devices in
    if name == ""
    then rest
    else "rewrite name "
      <> (name
          <> (".kl.local "
              <> (name
                  <> (".wg-"
                      <> (device.spec.account_name <> (".svc.cluster.local\n        " <> rest))))))

module _ {W V B : Type 0} (c : Client W DeviceSpec V B) (k : DeviceCluster W V B) where
  restart_dns : Exec (State W DeviceSpec V B (Local V B)) (Option Error)
  restart_dns = do
    s ← gets (λ s. s)
    on_world (λ w. c.kubectl w (
        "-n"
        ∷ wg_namespace s.object.spec.account_name
        ∷ "rollout"
        ∷ "restart"
        ∷ "deployment/coredns"
        ∷ []))

  -- The function under `if !ok`; the devices are read back from the scratch map.
  unfoldable pub apply_rules : Exec (State W DeviceSpec V B (Local V B)) (Option Error)
  unfolding restart_dns
  apply_rules = do
    s ← gets (λ s. s)
    elim (k.get_service s.world "kube-system" "kube-dns") [
      | err e ↦ pure (some e)
      | ok kube_dns ↦ elim (get_local as_devices s.locals "devices") [
        | none ↦ pure (some (new_error "devices not found"))
        | some devices ↦ elim (k.get_account s.world s.object.spec.account_name) [
          | err e ↦ pure (some e)
          | ok account ↦ (do
            sent ← on_world (λ w.
                k.apply_dns w account (device_names devices) (rewrite_rules devices)
                  kube_dns.cluster_ip)
            after sent (λ e. pure (some e)) restart_dns)
        ]
      ]
    ]

  -- An empty list comes with no error, whose text is then asked for: a panic.
  unfoldable pub recon_dns_rewrite_rules : Exec (State W DeviceSpec V B (Local V B)) Step
  recon_dns_rewrite_rules = do
    s ← gets (λ s. s)
    let dns_devices = or_zero "[]" (get_local as_text s.locals "dns-devices")
    elim (k.list_devices s.world s.object.spec.account_name) [
      | err e ↦
          fail_check c dns_rewrite_rules_synced
            (if not e.not_found then e.message else "device not found")
      | ok [] ↦ panic
      | ok (device ∷ more) ↦ (do
        keep_local "devices" (device_list (device ∷ more))
        let names = sort_strings (device_names (device ∷ more))
        let old = sort_strings (k.parse_names dns_devices)
        sent ← (if not (same_names names old) then apply_rules else pure none)
        after sent (λ e. fail_check c dns_rewrite_rules_synced e.message)
            (pass_check c dns_rewrite_rules_synced))
    ]
