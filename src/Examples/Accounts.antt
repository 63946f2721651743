-- ===== src/Examples/Accounts.antt =====
-- The properties of regions, accounts and devices at concrete inputs.
use text.Mathlib.TextLemmas.{append_cancel_left}
use kl_internal_operator.Base.{
  ℕ, ◌-◌, ◌≡◌, refl, inl, ◌↔◌, ap, String, Bool, true, false, none, some, List, [], ◌∷◌, All, Any,
  arith, text_beq, text_beq_iff, if◌then◌else◌,
}
use kl_internal_operator.Base.Integers.{ℤ, pos}
use kl_internal_operator.GoMap.{made, nil_map}
use kl_internal_operator.Kube.{Result, ok, err, ObjectMeta, new_error}
use kl_internal_operator.Operator.{Object}
use kl_internal_operator.Request.{State}
use kl_internal_operator.Request.Reports.{Blocks, pass_check}
use kl_internal_operator.Controller.{reconcile_object}
use kl_internal_operator.Domain.{record_up_to_date}
use kl_internal_operator.Region.{
  RegionSpec, RegionCluster, node_ips, finalize_region, recon_update_record,
}
use kl_internal_operator.Region.Addresses.{IsAddress, node_ips_iff}
use kl_internal_operator.Region.Deleting.{finalize_region_stuck}
use kl_internal_operator.Management.{
  Port, DeviceSpec, AccountSpec, ConfigService, ServicePort, Service, Local, is_active,
  get_remote_device_ip,
}
use kl_internal_operator.Device.Fetching.{DeviceCluster}
use kl_internal_operator.Device.Services.{
  get_port, then_port, or_temp, service_ports, device_service, recon_sync_services, services_synced,
}
use kl_internal_operator.Device.Ports.{recon_sync_services_settled, recon_sync_services_portless}
use kl_internal_operator.Account.Fetching.{AccountCluster}
use kl_internal_operator.Account.ProxyPorts.{new_configs}
use kl_internal_operator.Account.ProxyPorts.Bounds.{DrawsBelow, IsAssigned, new_configs-IsAssigned}
use kl_internal_operator.Account.ProxyPorts.Served.{Succeeds, service_ports-new_configs}
use kl_internal_operator.Account.Deployments.{
  deployment_name, is_deployed, update_region, update_regions,
}
use kl_internal_operator.Account.Deployments.Refines.{Deploys, is_listed, update_regions_lem}
use kl_internal_operator.Examples.{server, server-Keeps, metadata, status, state}

abbrev Example : Type 0 → Type 0 → Type 0
Example S L = State Unit S String (List (String × String)) L

abbrev VpnLocal : Type 0
VpnLocal = Local String (List (String × String))

abbrev node : ObjectMeta
node = record (metadata none) { annotations = made (("k3s.io/external-ip", "10.0.0.1") ∷ []) }

node_ips_iff_example :
    Any (λ j. j ≡ "10.0.0.1") (node_ips (node ∷ [])) ↔ Any (IsAddress "10.0.0.1") (node ∷ [])
node_ips_iff_example = node_ips_iff "10.0.0.1" (node ∷ [])

abbrev dying_region : Example RegionSpec Unit
dying_region = state (record { account_name = "acc"; is_master = true }) (some 5) nil_map

abbrev region_cluster : RegionCluster Unit String
region_cluster = record {
  list_nodes = λ w key value. ok (node ∷ []);
  upsert_domain = λ w name ips. (none, w);
  of_strings = λ l. "[]";
}

finalize_region_stuck_example :
    (reconcile_object server
      (record_up_to_date ∷ [])
      (finalize_region server region_cluster)
      (recon_update_record server region_cluster ∷ [])
      dying_region).1.object.metadata
    ≡ metadata (some 5)
finalize_region_stuck_example =
    finalize_region_stuck server region_cluster server-Keeps dying_region 5 refl

abbrev port : Port
port = record { port = pos 80; target_port = pos 8080 }

abbrev laptop : List Port → Object DeviceSpec String (List (String × String))
laptop ports = record {
  metadata = record (metadata none) { name = "laptop" };
  spec = record { account_name = "acc"; active_region = "east"; offset = pos 0; ports = ports };
  status = status nil_map;
}

abbrev device_state : List Port → Example DeviceSpec VpnLocal
device_state ports = record { object = laptop ports; world = tt; locals = made [] }

abbrev printed : ℤ → String
printed n = "80"

abbrev entry : ConfigService
entry = record {
  id = "laptop-80";
  name = "10.13.0.2";
  service_port = pos 8080;
  proxy_port = pos 3100;
}

abbrev served : ServicePort
served = record { name = "laptop-80"; port = pos 80; target_port = pos 3100; node_port = pos 0 }

abbrev device_cluster : Service → DeviceCluster Unit String (List (String × String))
device_cluster service = record {
  list_regions = λ w. ok [];
  list_devices = λ w account. ok (laptop (port ∷ []) ∷ []);
  get_account = λ w name. err (new_error "");
  get_config_map = λ w namespace name. ok (made []);
  get_service = λ w namespace name. ok service;
  get_secret = λ w namespace name. err (new_error "");
  generate_wg_keys = λ w. (ok ("public", "private"), w);
  ip_at = λ n. ok "10.13.0.2";
  print = printed;
  parse_services = λ json. ok (made (("services", entry ∷ []) ∷ []));
  parse_names = λ json. "laptop" ∷ [];
  parse_device_config = λ config. ok "";
  apply_service = λ w service. (none, w);
  apply_secret = λ w secret. (none, w);
  apply_dns = λ w account names rules ip. (none, w);
  pod_cidr = "";
  svc_cidr = "";
}

-- The service as the API server has it, which gave it an address.
abbrev with_address : Service
with_address = record (device_service (laptop (port ∷ [])) (served ∷ [])) {
  cluster_ip = "10.96.0.7";
}

recon_sync_services_settled_example :
    recon_sync_services server (device_cluster with_address) (device_state (port ∷ []))
    ≡ pass_check server services_synced (device_state (port ∷ []))
recon_sync_services_settled_example =
    recon_sync_services_settled server (device_cluster with_address) (entry ∷ [])
      (device_state (port ∷ [])) port [] (served ∷ []) with_address refl
      (unfold service_ports get_port then_port in refl) refl refl refl

recon_sync_services_portless_example :
    Blocks
      (recon_sync_services server
        (device_cluster (device_service (laptop []) (served ∷ [])))
        (device_state [])).0
recon_sync_services_portless_example =
    recon_sync_services_portless server (device_cluster (device_service (laptop []) (served ∷ [])))
      (device_state []) refl (λ service h. unfold device_service or_temp in ground (arith, h))

-- A source that always draws the greatest number.
abbrev greatest : Unit {0} → ℕ → ℕ × Unit {0}
greatest w n = (n - 1, w)

greatest-DrawsBelow : DrawsBelow greatest
greatest-DrawsBelow w n h = omega (arith, h)

abbrev address : ℤ → Result String
address n = ok "10.13.0.2"

new_configs-IsAssigned_example :
    All
      (IsAssigned (("laptop-80", entry) ∷ []))
      (new_configs greatest address printed
        (("laptop-80", entry) ∷ [])
        (laptop (port ∷ []) ∷ [])
        tt).0
new_configs-IsAssigned_example =
    new_configs-IsAssigned greatest greatest-DrawsBelow address printed (("laptop-80", entry) ∷ [])
      (laptop (port ∷ []) ∷ []) tt

service_ports-new_configs_example : Succeeds (
    service_ports printed
      (new_configs greatest address printed [] (laptop (port ∷ []) ∷ []) tt).0
      "laptop"
      (port ∷ []))
service_ports-new_configs_example =
    service_ports-new_configs greatest address printed (λ css. css) [] (laptop (port ∷ []) ∷ []) tt
      (laptop (port ∷ [])) "10.13.0.2" (λ css id h. h) (inl refl)
      (unfold get_remote_device_ip in refl)

-- A cluster that is the set of its deployments.
abbrev Deployed : Type 0
Deployed = String → Bool

abbrev account : Object AccountSpec String (List (String × String))
account = record {
  metadata = metadata none;
  spec = record { owned_domains = [] };
  status = status nil_map;
}

abbrev account_cluster : AccountCluster Deployed String (List (String × String))
account_cluster = record {
  get_namespace = λ w name. none;
  create_namespace = λ w name labels owners. (none, w);
  list_regions = λ w account. ok [];
  get_region = λ w name. err (new_error "");
  list_devices = λ w account. ok [];
  list_deployments = λ w namespace. ok [];
  list_device_secrets = λ w namespace. ok [];
  list_services = λ w namespace. ok [];
  get_secret = λ w namespace name. err (new_error "");
  create_secret = λ w secret. (none, w);
  update_secret = λ w secret. (none, w);
  get_config_map = λ w namespace name. err (new_error "");
  create_config_map = λ w config. (none, w);
  update_config_map = λ w config. (none, w);
  get_deployment = λ w namespace name. none;
  delete_deployment = λ w namespace name. (none, λ y. if text_beq name y then false else w y);
  apply_deployment = λ w o owner region master.
      (none, λ y. if text_beq (deployment_name region) y then true else w y);
  apply_coredns = λ w o exists owners region. (none, w);
  post = λ w url body. (none, w);
  generate_wg_keys = λ w. (ok ("public", "private"), w);
  rand_intn = λ w n. (0, w);
  ip_at = address;
  print = printed;
  parse_server_config = λ config. ok "";
  parse_services = λ json. ok (made []);
  print_services = λ css. ok "";
  json_equal = λ a b. ok true;
  sort_configs = λ css. css;
}

same_name : (a b : String) → text_beq (deployment_name a) (deployment_name b) ≡ text_beq a b
same_name a b = ground (
  arith,
  text_beq_iff (deployment_name a) (deployment_name b),
  text_beq_iff a b,
  append_cancel_left "wireguard-deployment-" a b,
  ap deployment_name,
)

abbrev account_deploys : Deploys account_cluster account
account_deploys = record {
  deployed = λ w x. w (deployment_name x);
  apply-deployed = λ w owner region master x h. rw (same_name region x) refl;
  delete-deployed = λ w region x h. rw (same_name region x) refl;
}

abbrev region : String → Object RegionSpec String (List (String × String))
region name = record {
  metadata = record (metadata none) { name = name };
  spec = record { account_name = "acc"; is_master = false };
  status = status nil_map;
}

abbrev account_state : State Deployed AccountSpec String (List (String × String)) VpnLocal
account_state = record { object = account; world = λ name. false; locals = made [] }

update_regions_lem_example :
    (update_regions account_cluster
        (laptop [] ∷ [])
        []
        (region "east" ∷ region "west" ∷ [])
        account_state).1.world
      (deployment_name "east")
    ≡ (if is_listed "east" (region "east" ∷ region "west" ∷ [])
        then is_active (laptop [] ∷ []) "east"
        else false)
update_regions_lem_example =
    update_regions_lem account_cluster account account_deploys (laptop [] ∷ []) []
      (region "east" ∷ region "west" ∷ []) account_state refl
      (λ x. inl (unfold is_deployed in refl))
      (unfold update_regions update_region is_active is_deployed in refl) "east"
