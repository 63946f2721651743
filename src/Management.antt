-- ===== src/Management.antt =====
-- apis/management/v1/device_types.go and account_types.go, and the Kubernetes resources that the
-- controllers of devices and accounts exchange: the proxy configuration, secrets and services.
use Prim.Native.Nat.{lt, eq, gt}
use Prim.Native.String.{compare, ◌++◌ as ◌<>◌}
use kl_internal_operator.Base.{
  String, Bool, true, false, ◌==◌, string_eq, if◌then◌else◌, Option, none, some, List, [], ◌∷◌,
}
use kl_internal_operator.Base.Integers.{ℤ, pos, ◌+ℤ◌}
use kl_internal_operator.GoMap.{GoMap, made}
use kl_internal_operator.Kube.{Result, ok, err, OwnerReference}
use kl_internal_operator.Operator.{Object}
use kl_internal_operator.Region.{RegionSpec}

pub record Port : Type 0 where
  pub port : ℤ
  pub target_port : ℤ

pub record DeviceSpec : Type 0 where
  pub account_name : String
  pub active_region : String
  pub offset : ℤ
  pub ports : List Port

pub record AccountSpec : Type 0 where
  pub owned_domains : List String

-- An entry of config.json of the device proxy.
pub record ConfigService : Type 0 where
  pub id : String
  pub name : String
  pub service_port : ℤ
  pub proxy_port : ℤ

-- corev1.Secret; the bytes of its data are texts.
pub record Secret : Type 0 where
  pub name : String
  pub namespace : String
  pub labels : GoMap String
  pub owner_references : List OwnerReference
  pub secret_data : GoMap String

-- corev1.ServicePort and corev1.Service, of which the code reads the node port, the cluster's
-- address, the selector and the ports.
pub record ServicePort : Type 0 where
  pub name : String
  pub port : ℤ
  pub target_port : ℤ
  pub node_port : ℤ

pub record Service : Type 0 where
  pub name : String
  pub namespace : String
  pub labels : GoMap String
  pub owner_references : List OwnerReference
  pub selector : GoMap String
  pub ports : List ServicePort
  pub cluster_ip : String

-- What the two controllers keep in the scratch map of a request.
pub data Local (V B : Type 0) : Type 0 where
  text : String → Local V B
  region_list : List (Object RegionSpec V B) → Local V B
  device_list : List (Object DeviceSpec V B) → Local V B
  deployment_list : List String → Local V B
  secret_value : Secret → Local V B

module _ {V B : Type 0} where
  abbrev pub as_text : Local V B → Option String
  as_text (text s) = some s
  as_text _ = none

  abbrev pub as_regions : Local V B → Option (List (Object RegionSpec V B))
  as_regions (region_list l) = some l
  as_regions _ = none

  abbrev pub as_devices : Local V B → Option (List (Object DeviceSpec V B))
  as_devices (device_list l) = some l
  as_devices _ = none

  abbrev pub as_deployments : Local V B → Option (List String)
  as_deployments (deployment_list l) = some l
  as_deployments _ = none

-- `getRemoteDeviceIp`: `ip_at n` is the text of the n-th address after 10.13.0.0, which the package
-- ipaddr computes.
unfoldable pub get_remote_device_ip : (ℤ → Result String) → ℤ → Result String
get_remote_device_ip ip_at offset = ip_at (offset +ℤ pos 2)

-- fmt.Sprint(name, "-", port), where `print` is fmt.Sprint of an int32.
abbrev pub service_id : (ℤ → String) → String → ℤ → String
service_id print name port = name <> ("-" <> print port)

abbrev pub wg_namespace : String → String
wg_namespace account = "wg-" <> account

-- `sort.Slice` by a name; the names are distinct where it is used.
module _ {A : Type 0} (name : A → String) where
  insert_by : A → List A → List A
  insert_by a [] = a ∷ []
  insert_by a (b ∷ l) =
      let rest = insert_by a l in
      elim (compare (name b) (name a)) [ lt ↦ b ∷ rest | eq ↦ a ∷ b ∷ l | gt ↦ a ∷ b ∷ l ]

  unfoldable pub sort_by : List A → List A
  unfolding insert_by
  sort_by [] = []
  sort_by (a ∷ l) = insert_by a (sort_by l)

-- `activeRegions`: the regions that a device has as its own.
unfoldable pub is_active : {V B : Type 0} → List (Object DeviceSpec V B) → String → Bool
is_active [] region = false
is_active (d ∷ ds) region =
    let rest = is_active ds region in
    if d.spec.active_region == ""
    then rest
    else if d.spec.active_region == region
    then true
    else rest

-- The labels and annotations that a device and an account are to have; `gvk` is the text of the
-- group, version and kind, and an address that cannot be computed reads as "".
abbrev pub device_labels : {V B : Type 0} → Object DeviceSpec V B → GoMap String
device_labels o = made (
    ("kloudlite.io/device.name", o.metadata.name)
    ∷ ("kloudlite.io/account.name", o.spec.account_name)
    ∷ [])

or_no_ip : Result String → String
or_no_ip (ok ip) = ip
or_no_ip (err e) = ""

unfoldable pub device_annotations :
    {V B : Type 0} → (ℤ → Result String) → String → Object DeviceSpec V B → GoMap String
unfolding or_no_ip
device_annotations ip_at gvk o = made (
    ("kloudlite.io/group-version-kind", gvk)
    ∷ ("ip", or_no_ip (get_remote_device_ip ip_at o.spec.offset))
    ∷ [])

abbrev pub account_ensured_labels : {V B : Type 0} → Object AccountSpec V B → GoMap String
account_ensured_labels o = made (("kloudlite.io/account-name", o.metadata.name) ∷ [])
