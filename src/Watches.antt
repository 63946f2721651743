-- ===== src/Watches.antt =====
-- The `SetupWithManager` of the controllers: which resources a change of another object wakes, as the
-- names of the requests of the mapping functions. Requests of owners come from the library.
pub mod Waking
pub mod Pools
use kl_internal_operator.Base.{
  String, Option, none, some, List, [], ◌∷◌, map, ◌==◌, string_eq, if◌then◌else◌,
}
use kl_internal_operator.GoMap.{GoMap, nil_map, made, get}
use kl_internal_operator.Kube.{Result, ok, err}
use kl_internal_operator.Functions.{or_zero}

-- The reads of the API server in the mapping function of regions: the names of all accounts, and that
-- of the account of a name.
pub record AccountReader : Type 0 where
  pub list_accounts : Result (List String)
  pub get_account : String → Result String

-- `name, ok := labels[key]; if !ok { return nil }`
abbrev pub requested : Option String → List String
requested none = []
requested (some name) = name ∷ []

-- The watch of devices by the controller of accounts.
unfoldable pub accounts_of_device : GoMap String → List String
accounts_of_device nil_map = []
accounts_of_device (made labels) = requested (get (made labels) "kloudlite.io/account.name")

abbrev pub listed_accounts : Result (List String) → List String
listed_accounts (err e) = []
listed_accounts (ok names) = names

abbrev pub found_account : Result String → List String
found_account (err e) = []
found_account (ok name) = name ∷ []

-- The watch of regions by the controller of accounts: a region without an account wakes all.
unfoldable pub accounts_of_region : AccountReader → GoMap String → List String
accounts_of_region k nil_map = []
accounts_of_region k (made labels) =
    let account_name = or_zero "" (get (made labels) "kloudlite.io/account.name") in
    if account_name == ""
    then listed_accounts k.list_accounts
    else found_account (k.get_account account_name)

-- The watch of services by the controller of devices.
unfoldable pub devices_of_service : GoMap String → List String
devices_of_service nil_map = []
devices_of_service (made labels) =
    let device_id = or_zero "" (get (made labels) "kloudlite.io/device.name") in
    if device_id == "" then [] else device_id ∷ []

-- The watch of nodes by the controller of regions.
unfoldable pub regions_of_node : GoMap String → List String
regions_of_node labels = requested (get labels "kloudlite.io/region")

-- The watches of nodes and pods by the controller of node pools.
unfoldable pub pools_of_object : GoMap String → List String
pools_of_object labels = requested (get labels "kloudlite.io/region")
