-- ===== src/Device/Ports.antt =====
-- When the service of a device has the ports of the device.
use kl_internal_operator.Base.{
  ◌<◌, ◌≡◌, refl, ap, ◌∙◌, String, true, false, not, List, [], ◌∷◌, map, length, arith, string_eq,
  text_beq_iff, ◌!=◌,
}
use kl_internal_operator.Base.Integers.{ℤ, int_beq_iff}
use kl_internal_operator.Exec.{◌>>=◌}
use kl_internal_operator.GoMap.{get, lookup}
use kl_internal_operator.Kube.{Result, ok, err}
use kl_internal_operator.Functions.{or_zero}
use kl_internal_operator.Request.{Client, State}
use kl_internal_operator.Request.Reports.{
  Blocks, resume-Blocks, if-Blocks, or-Blocks, fail_check, fail_check-Blocks, pass_check,
}
use kl_internal_operator.Management.{
  Port, DeviceSpec, ConfigService, ServicePort, Service, Local, service_id, wg_namespace,
}
use kl_internal_operator.Device.Fetching.{DeviceCluster}
use kl_internal_operator.Device.Services.{
  get_port, then_port, service_ports, or_temp, device_service, ports_differ, check_ports_differ,
  update_services, recon_sync_services, services_synced,
}

-- The port numbers of a device and of its service, in their order.
abbrev pub device_ports : List Port → List ℤ
device_ports = map (λ p. p.port)

abbrev pub target_ports : List ServicePort → List ℤ
target_ports = map (λ t. t.port)

check_ports_differ-same :
    (target : List ServicePort) (source : List Port)
    → target_ports target ≡ device_ports source
    → check_ports_differ target source ≡ false
unfolding check_ports_differ ports_differ
check_ports_differ-same [] [] e = refl
check_ports_differ-same [] (p ∷ ps) e = absurd (cc e)
check_ports_differ-same (t ∷ ts) [] e = absurd (cc e)
check_ports_differ-same (t ∷ ts) (p ∷ ps) e =
    ground (arith, e, int_beq_iff t.port p.port, check_ports_differ-same ts ps)

then_port-ports :
    (proxy : Result ℤ) (sp : ServicePort) (rest : Result (List ServicePort)) (ps : List ℤ)
    (sps : List ServicePort)
    → then_port proxy sp rest ≡ ok sps
    → ((sps : List ServicePort) → rest ≡ ok sps → target_ports sps ≡ ps)
    → target_ports sps ≡ sp.port ∷ ps
unfolding then_port
then_port-ports (err e) sp rest ps sps h ih = absurd (cc h)
then_port-ports (ok n) sp (err e) ps sps h ih = absurd (cc h)
then_port-ports (ok n) sp (ok rest) ps sps h ih = ground (arith, h, ih rest refl)

service_ports-ports :
    (print : ℤ → String) (css : List ConfigService) (name : String) (ps : List Port)
    (sps : List ServicePort)
    → service_ports print css name ps ≡ ok sps
    → target_ports sps ≡ device_ports ps
unfolding service_ports
service_ports-ports print css name [] sps h = ground (arith, h)
service_ports-ports print css name (p ∷ ps) sps h =
    then_port-ports (get_port css (service_id print name p.port)) _
      (service_ports print css name ps) (device_ports ps) sps h
      (service_ports-ports print css name ps)

or_temp-nonempty :
    (sps : List ServicePort) (p : Port) (ps : List Port)
    → target_ports sps ≡ device_ports (p ∷ ps)
    → or_temp sps ≡ sps
unfolding or_temp
or_temp-nonempty [] p ps e = absurd (cc e)
or_temp-nonempty (sp ∷ sps) p ps e = refl

module _ {W V B : Type 0} (c : Client W DeviceSpec V B) (k : DeviceCluster W V B) where
  -- When the service of a device that has a port has the port numbers, in their order, and the
  -- selected region of the one that `updateServices` applies for it, whatever else it has,
  -- `reconSyncServices` does nothing but pass its check.
  pub recon_sync_services_settled :
      (css : List ConfigService) (s : State W DeviceSpec V B (Local V B)) (p : Port)
      (ps : List Port) (sps : List ServicePort) (service : Service)
      → s.object.spec.ports ≡ p ∷ ps
      → service_ports k.print css s.object.metadata.name s.object.spec.ports ≡ ok sps
      → k.get_service s.world (wg_namespace s.object.spec.account_name) s.object.metadata.name
        ≡ ok service
      → target_ports service.ports ≡ target_ports (device_service s.object sps).ports
      → get service.selector "region" ≡ get (device_service s.object sps).selector "region"
      → recon_sync_services c k s ≡ pass_check c services_synced s
  unfolding recon_sync_services device_service lookup
  recon_sync_services_settled css s p ps sps service ports served found same_ports selected =
      let same =
        service_ports-ports k.print css s.object.metadata.name s.object.spec.ports sps served in
      let kept = or_temp-nonempty sps p ps (rw ports at same) in
      let equal : target_ports service.ports ≡ device_ports s.object.spec.ports =
        same_ports ∙ ap target_ports kept ∙ same in
      ground (
        arith,
        found,
        selected,
        check_ports_differ-same service.ports s.object.spec.ports equal,
        text_beq_iff s.object.spec.active_region s.object.spec.active_region,
      )

check_ports_differ-portless :
    (target : List ServicePort) → 0 < length target → check_ports_differ target [] ≡ true
unfolding check_ports_differ
check_ports_differ-portless [] h = absurd (omega (arith, h))
check_ports_differ-portless (t ∷ ts) h = ground arith

module _ {W V B : Type 0} (c : Client W DeviceSpec V B) (k : DeviceCluster W V B) where
  update_services-Blocks :
      (s : State W DeviceSpec V B (Local V B))
      → Blocks ((update_services c k >>= λ e. fail_check c services_synced e.message) s).0
  update_services-Blocks s =
      resume-Blocks (update_services c k s).0 _ _
        (λ e s'. fail_check-Blocks c services_synced e.message s')

  portless :
      (r : Result Service) (s : State W DeviceSpec V B (Local V B))
      → s.object.spec.ports ≡ []
      → k.get_service s.world (wg_namespace s.object.spec.account_name) s.object.metadata.name ≡ r
      → ((service : Service) → r ≡ ok service → 0 < length service.ports)
      → Blocks (recon_sync_services c k s).0
  unfolding recon_sync_services
  portless (err e) s none_of found h = rw found (
      if-Blocks (not e.not_found) _ _ s (fail_check-Blocks c services_synced e.message s)
        (update_services-Blocks s))
  portless (ok service) s none_of found h =
      let differ : check_ports_differ service.ports s.object.spec.ports ≡ true =
        rw none_of (check_ports_differ-portless service.ports (h service refl)) in
      rw found (
        or-Blocks (or_zero "" (get service.selector "region") != s.object.spec.active_region) _
          (update_services c k >>= λ e. fail_check c services_synced e.message)
          (pass_check c services_synced) s differ (update_services-Blocks s))

  -- For a device without ports, `reconSyncServices` never lets the reconciliation go on, if a
  -- service that is found has at least one port.
  pub recon_sync_services_portless :
      (s : State W DeviceSpec V B (Local V B))
      → s.object.spec.ports ≡ []
      → ((service : Service)
          → k.get_service s.world (wg_namespace s.object.spec.account_name) s.object.metadata.name
            ≡ ok service
          → 0 < length service.ports)
      → Blocks (recon_sync_services c k s).0
  recon_sync_services_portless s none_of h = portless _ s none_of refl h
