-- ===== src/Edge/Pools.antt =====
-- The node pools that an edge applies, and the ones that its next reconciliation looks for.
use kl_internal_operator.Base.{
  ◌≡◌, refl, inl, inr, Option, String, true, none, List, [], ◌∷◌, map, length, length-map, All,
  All-map, Any, arith, text_beq_iff, string_eq,
}
use kl_internal_operator.Base.Integers.{int_beq_iff}
use kl_internal_operator.Exec.{returned}
use kl_internal_operator.GoMap.{GoMap}
use kl_internal_operator.Kube.{ok, Error}
use kl_internal_operator.Operator.{Object}
use kl_internal_operator.Request.{Client, State}
use kl_internal_operator.Edge.{
  Pool, EdgeSpec, PoolObject, EdgeCluster, pool_name, matches, is_matched, wanted_pools,
  update_unmatched, recon_pool,
}

-- A pool has its match: the name of the edge and its own, its bounds and its configuration.
abbrev pub IsMatch : String → Pool → PoolObject → Type 0
IsMatch edge p np =
    (pool_name edge p ≡ np.name)
    × ((p.min ≡ np.spec.min) × ((p.max ≡ np.spec.max) × (p.config ≡ np.spec.config)))

is_matched_of :
    (edge : String) (p : Pool) (nps : List PoolObject)
    → Any (IsMatch edge p) nps
    → is_matched edge p nps ≡ true
unfolding is_matched matches
is_matched_of edge p [] h = absurd h
is_matched_of edge p (np ∷ nps) h = ground (
  arith,
  is_matched_of edge p nps,
  text_beq_iff (pool_name edge p) np.name,
  int_beq_iff p.min np.spec.min,
  int_beq_iff p.max np.spec.max,
  text_beq_iff p.config np.spec.config,
)

-- A property of every element and its image gives each element a witness in the mapped list.
each_in_image :
    {A C : Type 0} (R : A → C → Type 0) (f : A → C) (l : List A)
    → ((a : A) → R a (f a))
    → All (λ a. Any (R a) (map f l)) l
each_in_image R f [] h = tt
each_in_image R f (a ∷ l) h = (inl (h a), All-map _ _ l (λ b e. inr e) (each_in_image R f l h))

wanted_pools-is_matched :
    {V B : Type 0} (labels : GoMap String) (o : Object EdgeSpec V B)
    → All (λ p. is_matched o.metadata.name p (wanted_pools labels o) ≡ true) o.spec.pools
unfolding wanted_pools
wanted_pools-is_matched labels o =
    All-map _ _ o.spec.pools (λ p e. is_matched_of o.metadata.name p (wanted_pools labels o) e)
      (each_in_image (IsMatch o.metadata.name) _ o.spec.pools (λ p. (refl, (refl, (refl, refl)))))

length-wanted_pools :
    {V B : Type 0} (labels : GoMap String) (o : Object EdgeSpec V B)
    → length (wanted_pools labels o) ≡ length o.spec.pools
unfolding wanted_pools
length-wanted_pools labels o = length-map _ o.spec.pools

module _ {W V B : Type 0} (c : Client W EdgeSpec V B) (k : EdgeCluster W) where
  update_unmatched_lem :
      (edge : String) (nps : List PoolObject) (ps : List Pool) (s : State W EdgeSpec V B Unit)
      → All (λ p. is_matched edge p nps ≡ true) ps
      → update_unmatched c k edge nps ps s ≡ (returned none, s)
  unfolding update_unmatched
  update_unmatched_lem edge nps [] s h = refl
  update_unmatched_lem edge nps (p ∷ ps) s h =
      ground (arith, h.0, update_unmatched_lem edge nps ps s h.1)

module _ {W V B : Type 0} (c : Client W EdgeSpec V B) (k : EdgeCluster W) where
  -- When the node pools of the edge are those that the controller applies for it, the step of the
  -- node pools applies nothing: it answers the same whatever an application would do.
  pub recon_pool_settled :
      (apply : W → List PoolObject → Option Error × W) (labels : GoMap String)
      (s : State W EdgeSpec V B Unit)
      → k.list_pools s.world s.object.metadata.name ≡ ok (wanted_pools labels s.object)
      → recon_pool c (record k { apply_pools = apply }) s ≡ recon_pool c k s
  unfolding recon_pool
  recon_pool_settled apply labels s h =
      let nps = wanted_pools labels s.object in
      let matched = wanted_pools-is_matched labels s.object in
      let edge = s.object.metadata.name in
      ground (
        arith,
        h,
        length-wanted_pools labels s.object,
        update_unmatched_lem c k edge nps s.object.spec.pools s matched,
        update_unmatched_lem c (record k { apply_pools = apply }) edge nps s.object.spec.pools s
            matched,
      )
