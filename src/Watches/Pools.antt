-- ===== src/Watches/Pools.antt =====
-- Which node pools the nodes and pods of an edge wake.
use Prim.Native.String.{len, ◌++◌ as ◌<>◌}
use text.Mathlib.TextPositions.{len-append}
use kl_internal_operator.Base.{
  ◌≡◌, ◌≢◌, refl, ap, sym, ◌∙◌, String, some, List, [], ◌∷◌, map, arith, All,
}
use kl_internal_operator.GoMap.{GoMap, get}
use kl_internal_operator.Operator.{Object}
use kl_internal_operator.Edge.{EdgeSpec, Pool, PoolObject, pool_name, wanted_pools}
use kl_internal_operator.Watches.{pools_of_object}

pool_name-ne : (edge : String) (p : Pool) → pool_name edge p ≢ edge
pool_name-ne edge p h =
    omega (arith, ap len h, len-append edge ("-" <> p.name), len-append "-" p.name, one)
  where
    one : len "-" ≡ 1
    one = refl

names-ne :
    (edge : String) (f : Pool → PoolObject) (pools : List Pool)
    → ((p : Pool) → (f p).name ≡ pool_name edge p)
    → All (λ pool. pool.name ≢ edge) (map f pools)
names-ne edge f [] h = tt
names-ne edge f (p ∷ ps) h = (λ e. pool_name-ne edge p (sym (h p) ∙ e), names-ne edge f ps h)

module _ {V B : Type 0} where
  -- A node or pod whose label of the region is the name of an edge requests one node pool, and none
  -- of the node pools that the edge applies has that name.
  pub pools_of_object-wanted_pools :
      (labels object_labels : GoMap String) (o : Object EdgeSpec V B)
      → get object_labels "kloudlite.io/region" ≡ some o.metadata.name
      → (name : String) × (pools_of_object object_labels ≡ name ∷ [])
        × All (λ pool. pool.name ≢ name) (wanted_pools labels o)
  unfolding pools_of_object wanted_pools
  pools_of_object-wanted_pools labels object_labels o h =
      (o.metadata.name, rw h refl, names-ne o.metadata.name _ o.spec.pools (λ p. refl))
