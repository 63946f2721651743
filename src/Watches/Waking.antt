-- ===== src/Watches/Waking.antt =====
-- That the objects which a controller reads and writes wake the resources that depend on them.
use kl_internal_operator.Base.{
  ◌≡◌, ◌≢◌, ap, sym, String, Option, true, none, some, List, [], ◌∷◌, arith, string_eq,
  text_beq_iff,
}
use kl_internal_operator.GoMap.{GoMap, nil_map, made, get, lookup}
use kl_internal_operator.Functions.{map_contains, or_zero}
use kl_internal_operator.Functions.MapLaws.{map_contains_iff}
use kl_internal_operator.Operator.{Object}
use kl_internal_operator.Region.{RegionSpec, region_labels}
use kl_internal_operator.Management.{DeviceSpec, ServicePort, device_labels}
use kl_internal_operator.Device.Services.{device_service}
use kl_internal_operator.Watches.{
  AccountReader, requested, accounts_of_device, accounts_of_region, devices_of_service,
  found_account,
}

requested_lem :
    (value : Option String) (name : String)
    → or_zero "" value ≡ name
    → name ≢ ""
    → requested value ≡ name ∷ []
requested_lem none name h n = absurd (n (sym h))
requested_lem (some v) name h n = ap (λ x. x ∷ []) h

accounts_of_device_lem :
    (labels : GoMap String) (name : String)
    → or_zero "" (get labels "kloudlite.io/account.name") ≡ name
    → name ≢ ""
    → accounts_of_device labels ≡ name ∷ []
unfolding accounts_of_device lookup
accounts_of_device_lem nil_map name h n = absurd (n (sym h))
accounts_of_device_lem (made l) name h n = requested_lem _ name h n

accounts_of_region_lem :
    (k : AccountReader) (labels : GoMap String) (name : String)
    → or_zero "" (get labels "kloudlite.io/account.name") ≡ name
    → name ≢ ""
    → accounts_of_region k labels ≡ found_account (k.get_account name)
unfolding accounts_of_region lookup
accounts_of_region_lem k nil_map name h n = absurd (n (sym h))
accounts_of_region_lem k (made l) name h n = rw h (ground (arith, n, text_beq_iff name ""))

module _ {V B : Type 0} where
  -- Let a device and a region have their ensured labels, and the names of the device and of both
  -- accounts not be empty. The device wakes its account, the region the account of its account's
  -- name, if there is one, and the service that the device applies, with any ports, the device.
  pub ensured_labels_wake :
      (k : AccountReader) (d : Object DeviceSpec V B) (r : Object RegionSpec V B)
      → d.metadata.name ≢ ""
      → d.spec.account_name ≢ ""
      → r.spec.account_name ≢ ""
      → map_contains "" d.metadata.labels (device_labels d) ≡ true
      → map_contains "" r.metadata.labels (region_labels r) ≡ true
      → (accounts_of_device d.metadata.labels ≡ d.spec.account_name ∷ [])
        × (accounts_of_region k r.metadata.labels
            ≡ found_account (k.get_account r.spec.account_name))
        × ((ports : List ServicePort)
            → devices_of_service (device_service d ports).labels ≡ d.metadata.name ∷ [])
  unfolding devices_of_service device_service lookup
  ensured_labels_wake k d r named owned region_owned d_labels r_labels =
      let d_agrees = (map_contains_iff "" d.metadata.labels _).0.0 d_labels in
      let r_agrees = (map_contains_iff "" r.metadata.labels _).0.0 r_labels in
      (
        accounts_of_device_lem d.metadata.labels d.spec.account_name d_agrees.1.0 owned,
        accounts_of_region_lem k r.metadata.labels r.spec.account_name r_agrees.1.0 region_owned,
        λ ports. ground (arith, named, text_beq_iff d.metadata.name ""),
      )
