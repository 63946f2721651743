-- ===== src/Examples/Wakes.antt =====
-- The properties of the watches at concrete inputs.
use kl_internal_operator.Base.{◌≡◌, ◌≢◌, refl, String, false, none, List, [], ◌∷◌, All}
use kl_internal_operator.Base.Integers.{pos}
use kl_internal_operator.GoMap.{made, lookup}
use kl_internal_operator.Kube.{ok}
use kl_internal_operator.Functions.{map_contains, contains_all}
use kl_internal_operator.Operator.{Object}
use kl_internal_operator.Region.{RegionSpec}
use kl_internal_operator.Management.{DeviceSpec, ServicePort}
use kl_internal_operator.Device.Services.{device_service}
use kl_internal_operator.Edge.{EdgeSpec, wanted_pools}
use kl_internal_operator.Watches.{
  AccountReader, accounts_of_device, accounts_of_region, devices_of_service, found_account,
  pools_of_object,
}
use kl_internal_operator.Watches.Waking.{ensured_labels_wake}
use kl_internal_operator.Watches.Pools.{pools_of_object-wanted_pools}
use kl_internal_operator.Examples.{metadata, status}

abbrev device : Object DeviceSpec String (List (String × String))
device = record {
  metadata = record (metadata none) {
    labels =
        made
          (("kloudlite.io/device.name", "edge-pool") ∷ ("kloudlite.io/account.name", "acc") ∷ []);
  };
  spec = record { account_name = "acc"; active_region = "r"; offset = pos 1; ports = [] };
  status = status (made []);
}

abbrev region : Object RegionSpec String (List (String × String))
region = record {
  metadata = record (metadata none) {
    labels =
        made (("kloudlite.io/region", "edge-pool") ∷ ("kloudlite.io/account.name", "acc") ∷ []);
  };
  spec = record { account_name = "acc"; is_master = false };
  status = status (made []);
}

abbrev accounts : AccountReader
accounts = record { list_accounts = ok ("acc" ∷ []); get_account = λ name. ok name }

ensured_labels_wake_example :
    (accounts_of_device device.metadata.labels ≡ "acc" ∷ [])
    × (accounts_of_region accounts region.metadata.labels ≡ found_account (ok "acc"))
    × ((ports : List ServicePort)
        → devices_of_service (device_service device ports).labels ≡ "edge-pool" ∷ [])
unfolding map_contains contains_all lookup
ensured_labels_wake_example =
    ensured_labels_wake accounts device region (λ h. cc h) (λ h. cc h) (λ h. cc h) refl refl

abbrev edge : Object EdgeSpec String (List (String × String))
edge = record {
  metadata = metadata none;
  spec = record {
    cluster_name = "c";
    account_name = "acc";
    provider_name = "p";
    region = "eu";
    provider = "aws";
    pools = record { name = "pool"; config = "{}"; min = pos 1; max = pos 3 } ∷ [];
  };
  status = status (made []);
}

pools_of_object-wanted_pools_example :
    (name : String) × (pools_of_object (made (("kloudlite.io/region", "edge-pool") ∷ []))
      ≡ name ∷ [])
    × All (λ pool. pool.name ≢ name) (wanted_pools (made []) edge)
unfolding lookup
pools_of_object-wanted_pools_example =
    pools_of_object-wanted_pools (made []) (made (("kloudlite.io/region", "edge-pool") ∷ [])) edge
      refl
