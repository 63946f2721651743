-- ===== src/Functions/MapLaws.antt =====
-- What the map and finalizer helpers decide.
use kl_internal_operator.Base.{
  ◌≡◌, ◌≢◌, refl, ◌⊎◌, inl, inr, ◌↔◌, String, Bool, true, false, Option, none, some, List, [], ◌∷◌,
  arith, Eq, text_beq_iff, All, All-map, Any,
}
use kl_internal_operator.GoMap.{GoMap, made, nil_map, entries, get, lookup, insert, insert_all}
use kl_internal_operator.GoMap.Laws.{lookup-insert}
use kl_internal_operator.Kube.{OwnerReference}
use kl_internal_operator.Functions.{
  or_zero, contains_all, map_contains, map_merge, contains_finalizers, finalizer_set, all_present,
  is_owner_in,
}

module _ {ℓ} {V : Type ℓ} where
  -- No key stands twice in the list, which is so of the entries of every Go map.
  abbrev pub HasDistinctKeys : List (String × V) → Type ℓ
  HasDistinctKeys [] = Unit
  HasDistinctKeys ((k, v) ∷ l) = (lookup l k ≡ none) × HasDistinctKeys l

  -- A key of the copied map has its value there, and any other the value that it had.
  abbrev pub over : Option V → Option V → Option V
  over (some v) old = some v
  over none old = old

  pub lookup-insert_all :
      (src l : List (String × V)) (k : String)
      → HasDistinctKeys src
      → lookup (insert_all src l) k ≡ over (lookup src k) (lookup l k)
  unfolding lookup insert_all
  lookup-insert_all [] l k h = refl
  lookup-insert_all ((j, v) ∷ src) l k h =
      ground
        (arith, lookup-insert_all src (insert j v l) k h.1, lookup-insert j k v l, text_beq_iff j k)

  -- `MapMerge` of maps in which no key stands twice: a key has its value in the second map, or else
  -- its value in the first.
  pub map_merge-get :
      (m1 m2 : GoMap V) (k : String)
      → HasDistinctKeys (entries m1)
      → HasDistinctKeys (entries m2)
      → get (map_merge m1 m2) k ≡ over (get m2 k) (get m1 k)
  unfolding map_merge lookup
  map_merge-get m1 m2 k h1 h2 = ground (
    arith,
    lookup-insert_all (entries m2) (insert_all (entries m1) []) k h2,
    lookup-insert_all (entries m1) [] k h1,
  )

-- Every key reads as the value that the list gives it.
abbrev pub Agrees {ℓ} : {V : Type ℓ} → V → GoMap V → List (String × V) → Type ℓ
Agrees zero target [] = Unit
Agrees zero target ((k, v) ∷ l) = (or_zero zero (get target k) ≡ v) × Agrees zero target l

module _ {ℓ} {V : Type ℓ} ⦃e : Eq V⦄ where
  contains_all_iff :
      (zero : V) (target : GoMap V) (l : List (String × V))
      → (contains_all zero target l ≡ true) ↔ Agrees zero target l
  unfolding contains_all
  contains_all_iff zero target [] = (λ _. tt, λ _. refl)
  contains_all_iff zero target ((k, v) ∷ l) =
      let same = e.test_iff (or_zero zero (get target k)) v in
      let rest = contains_all_iff zero target l in
      (λ h. ground (arith, same.0, rest.0), λ h. ground (arith, same.1 h.0, rest.1 h.1))

  -- `MapContains` of a map that is not nil: every entry of `m` is read back from `target`, where a
  -- key that is missing reads as the zero value. A nil `m` is contained in a nil map alone.
  pub map_contains_iff :
      (zero : V) (target : GoMap V) (l : List (String × V))
      → ((map_contains zero target (made l) ≡ true) ↔ Agrees zero target l)
        × ((map_contains zero (made l) nil_map ≡ false)
            × (map_contains zero nil_map nil_map ≡ true))
  unfolding map_contains
  map_contains_iff zero nil_map l = (contains_all_iff zero nil_map l, (refl, refl))
  map_contains_iff zero (made t) l = (contains_all_iff zero (made t) l, (refl, refl))

finalizer_set-lookup :
    (fs : List String) (m : List (String × Bool)) (f : String)
    → (lookup (finalizer_set fs m) f ≢ none) ↔ (Any (λ g. g ≡ f) fs ⊎ (lookup m f ≢ none))
unfolding finalizer_set
finalizer_set-lookup [] m f = (λ h. inr h, λ h. ground arith)
finalizer_set-lookup (g ∷ fs) m f =
    let rest = finalizer_set-lookup fs (insert g true m) f in
    (
      λ h. ground (arith, rest.0 h, lookup-insert g f true m, text_beq_iff g f),
      λ h. rest.1 (ground (arith, lookup-insert g f true m, text_beq_iff g f)),
    )

all_present_iff :
    (m : List (String × Bool)) (fs : List String)
    → (all_present m fs ≡ true) ↔ All (λ f. lookup m f ≢ none) fs
unfolding all_present
all_present_iff m [] = (λ _. tt, λ _. refl)
all_present_iff m (f ∷ fs) =
    let rest = all_present_iff m fs in
    (λ h. ground (arith, rest.0), λ h. ground (arith, rest.1 h.1, h.0))

-- `ContainsFinalizers` holds exactly when each finalizer asked for is one of the object's.
pub contains_finalizers_iff :
    (flist finalizers : List String)
    → (contains_finalizers flist finalizers ≡ true) ↔ All (λ f. Any (λ g. g ≡ f) flist) finalizers
unfolding contains_finalizers lookup
contains_finalizers_iff flist finalizers =
    let tests = all_present_iff (finalizer_set flist []) finalizers in
    (
      λ h.
          All-map _ _ finalizers (λ f p. ground (arith, (finalizer_set-lookup flist [] f).0 p))
            (tests.0 h),
      λ h. tests.1 (All-map _ _ finalizers (λ f p. (finalizer_set-lookup flist [] f).1 (inl p)) h),
    )

-- `IsOwner` holds exactly when one of the references has the owner's name, uid, kind and version.
pub is_owner_in_iff :
    (refs : List OwnerReference) (owner : OwnerReference)
    → (is_owner_in refs owner ≡ true)
      ↔ Any
          (λ ref.
            (ref.name ≡ owner.name)
            × (ref.uid ≡ owner.uid)
            × (ref.kind ≡ owner.kind)
            × (ref.api_version ≡ owner.api_version))
          refs
unfolding is_owner_in
is_owner_in_iff [] owner = (λ h. cc, λ h. absurd h)
is_owner_in_iff (r ∷ refs) owner =
    let rest = is_owner_in_iff refs owner in
    let name = text_beq_iff r.name owner.name in
    let uid = text_beq_iff r.uid owner.uid in
    let kind = text_beq_iff r.kind owner.kind in
    let version = text_beq_iff r.api_version owner.api_version in
    (
      λ h. ground (arith, rest.0, name, uid, kind, version),
      λ h. ground (arith, rest.1, name, uid, kind, version),
    )
