-- ===== src/Functions.antt =====
-- lib/functions/main.go, lib/functions/operator-helpers.go and the owner references of
-- lib/functions/kubectl.go: helpers on maps, finalizers and owners.
pub mod MapLaws
pub mod Encoding
use kl_internal_operator.Base.{
  String, Bool, true, false, not, ◌&&◌, Option, none, some, List, [], ◌∷◌, Eq, ◌==◌, ◌!=◌,
  string_eq, if◌then◌else◌,
}
use kl_internal_operator.GoMap.{
  GoMap, nil_map, made, entries, is_nil, get, assign, or_made, lookup, insert, insert_all,
}
use kl_internal_operator.Kube.{ObjectMeta, OwnerReference}

abbrev pub or_zero {ℓ} : {V : Type ℓ} → V → Option V → V
or_zero zero none = zero
or_zero zero (some v) = v

module _ {ℓ} {V : Type ℓ} ⦃e : Eq V⦄ where
  -- The loop of `MapContains`; `zero` is the zero value of the type, which a missing key reads as.
  unfoldable pub contains_all : V → GoMap V → List (String × V) → Bool
  contains_all zero target [] = true
  contains_all zero target ((k, v) ∷ l) =
      if or_zero zero (get target k) != v then false else contains_all zero target l

  unfoldable pub map_contains : V → GoMap V → GoMap V → Bool
  map_contains zero target m =
      if is_nil target && is_nil m
      then true
      else if is_nil m
      then false
      else contains_all zero target (entries m)

module _ {ℓ} {V : Type ℓ} where
  unfoldable pub map_merge : GoMap V → GoMap V → GoMap V
  map_merge m1 m2 = made (insert_all (entries m2) (insert_all (entries m1) []))

  -- `MapSet` assigns to its own copy of the reference: a nil map of the caller stays nil.
  unfoldable pub map_set : GoMap V → String → V → GoMap V
  map_set nil_map k v = nil_map
  map_set (made l) k v = made (insert k v l)

-- The set of `ContainsFinalizers`, and its test of every finalizer.
finalizer_set : List String → List (String × Bool) → List (String × Bool)
finalizer_set [] m = m
finalizer_set (f ∷ fs) m = finalizer_set fs (insert f true m)

all_present : List (String × Bool) → List String → Bool
all_present m [] = true
all_present m (f ∷ fs) = elim (lookup m f) [ none ↦ false | some _ ↦ all_present m fs ]

unfoldable pub contains_finalizers : List String → List String → Bool
unfolding finalizer_set all_present
contains_finalizers flist finalizers = all_present (finalizer_set flist []) finalizers

-- `AsOwner`: any second argument makes the reference a controller's.
unfoldable pub as_owner : ObjectMeta → List Bool → OwnerReference
as_owner r controller = record {
  api_version = r.api_version;
  kind = r.kind;
  name = r.name;
  uid = r.uid;
  controller = some (elim controller [ [] ↦ false | _ ∷ _ ↦ true ]);
  block_owner_deletion = some true;
}

abbrev same_owner : OwnerReference → OwnerReference → Bool
same_owner ref owner =
    ref.name == owner.name
    && (ref.uid == owner.uid && (ref.kind == owner.kind && ref.api_version == owner.api_version))

unfoldable pub is_owner_in : List OwnerReference → OwnerReference → Bool
is_owner_in [] owner = false
is_owner_in (ref ∷ refs) owner = if same_owner ref owner then true else is_owner_in refs owner

abbrev pub is_owner : ObjectMeta → OwnerReference → Bool
is_owner obj owner = is_owner_in obj.owner_references owner
