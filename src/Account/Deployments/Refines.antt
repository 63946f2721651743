-- ===== src/Account/Deployments/Refines.antt =====
-- What `updateDeployments` does to the set of the regions that have a deployment.
use kl_internal_operator.Base.{
  ◌∙◌, ap, sym, ◌≡◌, refl, ◌⊎◌, String, Bool, true, false, Option, none, some, List, [], ◌∷◌, arith,
  text_beq, text_beq_iff, if◌then◌else◌,
}
use kl_internal_operator.Exec.{Outcome, returned, panicked}
use kl_internal_operator.Kube.{Error, OwnerReference}
use kl_internal_operator.Functions.{as_owner}
use kl_internal_operator.Operator.{Object}
use kl_internal_operator.Request.{State}
use kl_internal_operator.Region.{RegionSpec}
use kl_internal_operator.Management.{DeviceSpec, AccountSpec, Local, is_active, wg_namespace}
use kl_internal_operator.Account.Fetching.{AccountCluster}
use kl_internal_operator.Account.Deployments.{
  deployment_name, is_deployed, update_region, update_regions,
}

-- What is relied on of the cluster: which regions have a deployment of the account, and how a call
-- without an error changes that.
pub record Deploys {W V B : Type 0} (k : AccountCluster W V B) (o : Object AccountSpec V B)
    : Type 0 where
  pub deployed : W → String → Bool
  pub apply-deployed :
      (w : W) (owner : OwnerReference) (region : String) (master : Bool) (x : String)
      → (k.apply_deployment w o owner region master).0 ≡ none
      → deployed (k.apply_deployment w o owner region master).1 x
        ≡ (if text_beq region x then true else deployed w x)
  pub delete-deployed :
      (w : W) (region : String) (x : String)
      → (k.delete_deployment w (wg_namespace o.metadata.name) (deployment_name region)).0 ≡ none
      → deployed (k.delete_deployment w (wg_namespace o.metadata.name) (deployment_name region)).1 x
        ≡ (if text_beq region x then false else deployed w x)

-- A region of this name is in the list.
abbrev pub is_listed : {V B : Type 0} → String → List (Object RegionSpec V B) → Bool
is_listed x [] = false
is_listed x (r ∷ rs) = if text_beq r.metadata.name x then true else is_listed x rs

module _ {W V B : Type 0} (k : AccountCluster W V B) (o : Object AccountSpec V B)
    (law : Deploys k o) (devices : List (Object DeviceSpec V B)) (deploys : List String) where
  -- A region is as the list of the deployments has it, or as it is to be.
  abbrev pub IsTracked : W → Type 0
  IsTracked w =
      (x : String)
      → (law.deployed w x ≡ is_deployed deploys (deployment_name x))
        ⊎ (law.deployed w x ≡ is_active devices x)

  update_region_lem :
      (r : Object RegionSpec V B) (s : State W AccountSpec V B (Local V B)) (x : String)
      → s.object ≡ o
      → IsTracked s.world
      → (update_region k devices deploys r s).0 ≡ returned none
      → law.deployed (update_region k devices deploys r s).1.world x
        ≡ (if text_beq r.metadata.name x then is_active devices x else law.deployed s.world x)
  unfolding update_region
  update_region_lem r s x same tracked done =
      let owner = as_owner r.metadata [] in
      ground (
        arith,
        same,
        tracked x,
        done,
        text_beq_iff r.metadata.name x,
        law.apply-deployed s.world owner r.metadata.name r.spec.is_master x,
        law.delete-deployed s.world r.metadata.name x,
      )

  update_region-object :
      (r : Object RegionSpec V B) (s : State W AccountSpec V B (Local V B))
      → (update_region k devices deploys r s).1.object ≡ s.object
  unfolding update_region
  update_region-object r s = ground arith

  by_sent :
      (r : Object RegionSpec V B) (rs : List (Object RegionSpec V B))
      (s s' : State W AccountSpec V B (Local V B)) (sent : Outcome (Option Error))
      → update_region k devices deploys r s ≡ (sent, s')
      → (update_regions k devices deploys (r ∷ rs) s).0 ≡ returned none
      → (sent ≡ returned none)
        × (update_regions k devices deploys (r ∷ rs) s ≡ update_regions k devices deploys rs s')
  unfolding update_regions
  by_sent r rs s s' panicked e done = absurd (ground (arith, e, done))
  by_sent r rs s s' (returned (some x)) e done = absurd (ground (arith, e, done))
  by_sent r rs s s' (returned none) e done = (refl, rw e refl)

  update_region-IsTracked :
      (r : Object RegionSpec V B) (s : State W AccountSpec V B (Local V B))
      → s.object ≡ o
      → IsTracked s.world
      → (update_region k devices deploys r s).0 ≡ returned none
      → IsTracked (update_region k devices deploys r s).1.world
  update_region-IsTracked r s same tracked done x =
      ground (arith, tracked x, update_region_lem r s x same tracked done)

  -- Let the cluster have, for every region, the deployment that the list of the deployments tells,
  -- or the one that the region is to have. If the loop of `updateDeployments` ends without an
  -- error, then a region that is in the list of the regions has a deployment exactly when it is
  -- active, and every other region as it had before.
  pub update_regions_lem :
      (rs : List (Object RegionSpec V B)) (s : State W AccountSpec V B (Local V B))
      → s.object ≡ o
      → IsTracked s.world
      → (update_regions k devices deploys rs s).0 ≡ returned none
      → (x : String)
      → law.deployed (update_regions k devices deploys rs s).1.world x
        ≡ (if is_listed x rs then is_active devices x else law.deployed s.world x)
  unfolding update_regions
  update_regions_lem [] s same tracked done x = refl
  update_regions_lem (r ∷ rs) s same tracked done x =
      let first = update_region k devices deploys r s in
      let (ran, e) = by_sent r rs s first.1 first.0 refl done in
      let tracked' = update_region-IsTracked r s same tracked ran in
      let ih =
        update_regions_lem rs first.1 (update_region-object r s ∙ same) tracked'
          (ap (λ p. p.0) (sym e) ∙ done) x in
      ground (arith, e, ih, update_region_lem r s x same tracked ran)
