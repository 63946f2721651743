-- ===== src/Device/Services.antt =====
-- controllers/common/device_controller.go: `updateServices`, `checkPortsDiffer` and
-- `reconSyncServices`, which keep the service of a device.
use kl_internal_operator.Base.{
  String, Bool, true, false, not, ◌||◌, none, some, List, [], ◌∷◌, length, ◌==◌, ◌!=◌, string_eq,
  nat_beq, if◌then◌else◌,
}
use kl_internal_operator.Base.Integers.{ℤ, pos, int_eq}
use kl_internal_operator.Exec.{Exec, pure, gets, ◌>>=◌}
use kl_internal_operator.GoMap.{made, get}
use kl_internal_operator.Kube.{Error, Result, ok, err, new_error}
use kl_internal_operator.Functions.{as_owner, or_zero}
use kl_internal_operator.StepResult.{Step}
use kl_internal_operator.Operator.{Object}
use kl_internal_operator.Request.{on_world, Client, State}
use kl_internal_operator.Request.Reports.{fail_check, pass_check}
use kl_internal_operator.Management.{
  Port, DeviceSpec, ConfigService, ServicePort, Service, Local, service_id, wg_namespace,
}
use kl_internal_operator.Device.Fetching.{DeviceCluster}

abbrev pub services_synced : String
services_synced = "services-syncd"

unfoldable pub get_port : List ConfigService → String → Result ℤ
get_port [] id = err (new_error "proxy port not found in proxy config")
get_port (s ∷ svce) id = if s.id == id then ok s.proxy_port else get_port svce id

unfoldable pub then_port :
    Result ℤ → ServicePort → Result (List ServicePort) → Result (List ServicePort)
then_port (err e) sp rest = err e
then_port (ok proxy) sp (err e) = err e
then_port (ok proxy) sp (ok sps) = ok (record sp { target_port = proxy } ∷ sps)

-- The loop over the ports of the device; it ends at the first port without a proxy port.
unfoldable pub service_ports :
    (ℤ → String) → List ConfigService → String → List Port → Result (List ServicePort)
unfolding then_port
service_ports print config name [] = ok []
service_ports print config name (p ∷ ps) =
    let sp : ServicePort = record {
      name = service_id print name p.port;
      port = p.port;
      target_port = pos 0;
      node_port = pos 0;
    } in
    then_port (get_port config (service_id print name p.port)) sp
      (service_ports print config name ps)

-- A service must have a port.
unfoldable pub or_temp : List ServicePort → List ServicePort
or_temp [] = record { name = "temp"; port = pos 80; target_port = pos 0; node_port = pos 0 } ∷ []
or_temp (sp ∷ sps) = sp ∷ sps

unfoldable pub device_service : {V B : Type 0} → Object DeviceSpec V B → List ServicePort → Service
device_service o ports = record {
  name = o.metadata.name;
  namespace = wg_namespace o.spec.account_name;
  labels =
      made (("proxy-device-service", "true") ∷ ("kloudlite.io/device.name", o.metadata.name) ∷ []);
  owner_references = as_owner o.metadata (true ∷ []) ∷ [];
  selector = made (("region", o.spec.active_region) ∷ []);
  ports = or_temp ports;
  cluster_ip = "";
}

-- The second loop of `checkPortsDiffer`, on lists of one length; the map of the target ports is
-- filled and not read.
unfoldable pub ports_differ : List ServicePort → List Port → Bool
ports_differ [] source = false
ports_differ (t ∷ ts) [] = false
ports_differ (t ∷ ts) (p ∷ ps) = if t.port != p.port then true else ports_differ ts ps

unfoldable pub check_ports_differ : List ServicePort → List Port → Bool
check_ports_differ target source =
    if not (nat_beq (length target) (length source)) then true else ports_differ target source

module _ {W V B : Type 0} (c : Client W DeviceSpec V B) (k : DeviceCluster W V B) where
  -- `templates.Parse`, `KubectlApplyExec`, and then an error in any case.
  apply_ports : List ServicePort → Exec (State W DeviceSpec V B (Local V B)) Error
  apply_ports ports = do
    s ← gets (λ s. s)
    sent ← on_world (λ w. k.apply_service w (device_service s.object ports))
    pure (elim sent [ some e ↦ e | none ↦ new_error "services being updated" ])

  -- `updateServices` never succeeds.
  unfoldable pub update_services : Exec (State W DeviceSpec V B (Local V B)) Error
  unfolding apply_ports
  update_services = do
    s ← gets (λ s. s)
    let o = s.object
    elim (k.get_config_map s.world (wg_namespace o.spec.account_name) "device-proxy-config") [
      | err e ↦ pure (if not e.not_found then e else new_error "proxy config not generated yet")
      | ok config ↦ elim (k.parse_services (or_zero "" (get config "config.json"))) [
        | err e ↦ pure e
        | ok services ↦
            elim (service_ports k.print (or_zero [] (get services "services")) o.metadata.name
              o.spec.ports) [ err e ↦ pure e | ok ports ↦ apply_ports ports ]
      ]
    ]

  -- Behind a successful `updateServices`, which there is not, the service that was not found would
  -- be read.
  unfoldable pub recon_sync_services : Exec (State W DeviceSpec V B (Local V B)) Step
  recon_sync_services = do
    s ← gets (λ s. s)
    let o = s.object
    let update = (do e ← update_services; fail_check c services_synced e.message)
    elim (k.get_service s.world (wg_namespace o.spec.account_name) o.metadata.name) [
      | err e ↦ if not e.not_found then fail_check c services_synced e.message else update
      | ok service ↦
          if (or_zero "" (get service.selector "region") != o.spec.active_region)
            || check_ports_differ service.ports o.spec.ports
          then update
          else pass_check c services_synced
    ]
