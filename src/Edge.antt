-- ===== src/Edge.antt =====
-- controllers/infra/edge_controller.go and apis/infra/v1/edge_types.go: the controller of edges,
-- which keeps a region and the node pools of the edge. `templates.Parse` of the texts under
-- lib/templates followed by `KubectlApplyExec` is `apply_region` and `apply_pools`.
pub mod Pools
pub mod Labels
use Prim.Native.String.{◌++◌ as ◌<>◌}
use kl_internal_operator.Base.{
  ℕ, ◌*◌, String, Bool, true, false, not, ◌&&◌, Option, none, some, List, [], ◌∷◌, ◌++◌, map,
  length, ◌==◌, ◌!=◌, string_eq, nat_beq, if◌then◌else◌,
}
use kl_internal_operator.Base.Integers.{ℤ, int_eq}
use kl_internal_operator.Exec.{Exec, Outcome, pure, gets, modify, act, ◌>>=◌, ◌>>◌}
use kl_internal_operator.GoMap.{GoMap, made, get}
use kl_internal_operator.Kube.{Error, Result, ok, err, ObjectMeta, OwnerReference, second}
use kl_internal_operator.Functions.{as_owner, is_owner, or_zero}
use kl_internal_operator.StepResult
use kl_internal_operator.StepResult.{Step}
use kl_internal_operator.Operator.{Check, zero_check, check_eq, Object}
use kl_internal_operator.Request.{
  Client, State, after, proceed, send_update, check_failed, set_check, update_status, done,
  finalize,
}
use kl_internal_operator.Controller.{Response, reconcile_object, reconcile_fetched}
use kl_internal_operator.NodePool.{NodePoolSpec}
use kl_internal_operator.CloudProvider.{region_ready, pool_ready}

pub record Pool : Type 0 where
  pub name : String
  pub config : String
  pub min : ℤ
  pub max : ℤ

pub record EdgeSpec : Type 0 where
  pub account_name : String
  pub provider : String
  pub region : String
  pub provider_name : String
  pub cluster_name : String
  pub pools : List Pool

-- What the controller reads and writes of a NodePool.
pub record PoolObject : Type 0 where
  pub name : String
  pub labels : GoMap String
  pub owner_references : List OwnerReference
  pub spec : NodePoolSpec

-- `get_provider` gives the metadata of the cloud provider, `region_account` the account of the region.
pub record EdgeCluster (W : Type 0) : Type 0 where
  pub get_provider : W → String → Result ObjectMeta
  pub region_account : W → String → Result String
  pub list_pools : W → String → Result (List PoolObject)
  pub apply_region : W → String → String → String → Option Error × W
  pub apply_pools : W → List PoolObject → Option Error × W

abbrev pub defaults_patched : String
defaults_patched = "defaults-patched"

abbrev pub pool_name : String → Pool → String
pool_name edge p = edge <> ("-" <> p.name)

-- The condition of the inner loop of `reconPool`.
unfoldable pub matches : String → Pool → PoolObject → Bool
matches edge p np =
    (pool_name edge p == np.name)
    && ((p.min == np.spec.min) && ((p.max == np.spec.max) && (p.config == np.spec.config)))

unfoldable pub is_matched : String → Pool → List PoolObject → Bool
is_matched edge p [] = false
is_matched edge p (np ∷ nps) = if matches edge p np then true else is_matched edge p nps

-- The node pools that `UpdatePool` applies; `labels` is `GetEnsuredLabels` of the edge.
unfoldable pub wanted_pools : {V B : Type 0} → GoMap String → Object EdgeSpec V B → List PoolObject
wanted_pools labels o =
    map
      (λ p. record {
        name = pool_name o.metadata.name p;
        labels = labels;
        owner_references = as_owner o.metadata (true ∷ []) ∷ [];
        spec = record {
          account_name = o.spec.account_name;
          cluster_name = o.spec.cluster_name;
          edge_name = o.metadata.name;
          provider = o.spec.provider;
          provider_name = o.spec.provider_name;
          region = o.spec.region;
          config = p.config;
          min = p.min;
          max = p.max;
        };
      })
      o.spec.pools

module _ {W V B : Type 0} (c : Client W EdgeSpec V B) where
  abbrev pub current : State W EdgeSpec V B Unit → Check
  current s = record zero_check { generation = s.object.metadata.generation }

  failed : String → Error → Exec (State W EdgeSpec V B Unit) Step
  failed name e = do s ← gets (λ s. s); check_failed c name (current s) e.message

  -- The last lines of the steps: the check passes, and is stored if that is new.
  pass : String → Exec (State W EdgeSpec V B Unit) Step
  pass name = do
    s ← gets (λ s. s)
    let check = record (current s) { status = true }
    if check != or_zero zero_check (get s.object.status.checks name)
        then (do set_check name check; update_status c)
        else pure proceed

module _ {W V B : Type 0} (c : Client W EdgeSpec V B) (k : EdgeCluster W) where
  unfoldable pub patch_defaults : Exec (State W EdgeSpec V B Unit) Step
  unfolding failed pass
  patch_defaults = do
    s ← gets (λ s. s)
    elim (k.get_provider s.world s.object.spec.provider_name) [
      | err e ↦ (do step ← failed c defaults_patched e; pure (StepResult.with_err none step))
      | ok provider ↦
          if not (is_owner s.object.metadata (as_owner provider []))
          then (do
            modify (λ s. record s {
              object = record s.object {
                metadata = record s.object.metadata {
                  owner_references =
                      s.object.metadata.owner_references ++ as_owner provider (true ∷ []) ∷ [];
                };
              };
            })
            sent ← send_update c
            after sent (failed c defaults_patched)
                (do step ← done c []; pure (StepResult.requeue_after (1 * second) step)))
          else pass c defaults_patched
    ]

  apply_region : Exec (State W EdgeSpec V B Unit) (Option Error)
  apply_region s =
      let o = s.object in
      act
        (λ s.
          let (e, w) = k.apply_region s.world o.metadata.name o.spec.account_name o.spec.provider in
          (e, record s { world = w }))
        s

  unfoldable pub recon_region : Exec (State W EdgeSpec V B Unit) Step
  unfolding failed pass apply_region
  recon_region = do
    s ← gets (λ s. s)
    let apply = (do sent ← apply_region; after sent (failed c region_ready) (pass c region_ready))
    elim (k.region_account s.world s.object.metadata.name) [
      | err e ↦ if not e.not_found then failed c region_ready e else apply
      | ok account ↦ if account != s.object.spec.account_name then apply else pass c region_ready
    ]

  unfoldable pub update_pool : Exec (State W EdgeSpec V B Unit) (Option Error)
  update_pool = act (λ s.
      let (e, w) = k.apply_pools s.world (wanted_pools (c.ensured_labels s.object) s.object) in
      (e, record s { world = w }))

  -- The loop over the pools of the edge: every pool without a match applies all of them.
  unfoldable pub update_unmatched :
      String → List PoolObject → List Pool → Exec (State W EdgeSpec V B Unit) (Option Error)
  update_unmatched edge nps [] = pure none
  update_unmatched edge nps (p ∷ ps) =
      let rest = update_unmatched edge nps ps in
      if not (is_matched edge p nps)
      then (do sent ← update_pool; after sent (λ e. pure (some e)) rest)
      else rest

  unfoldable pub recon_pool : Exec (State W EdgeSpec V B Unit) Step
  unfolding failed pass
  recon_pool = do
    s ← gets (λ s. s)
    let o = s.object
    elim (k.list_pools s.world o.metadata.name) [
      | err e ↦
          if not e.not_found
          then failed c region_ready e
          else (do sent ← update_pool; after sent (failed c pool_ready) (pass c pool_ready))
      | ok nps ↦ (do
        sent ←
            (if not (nat_beq (length nps) (length o.spec.pools))
              then update_pool
              else update_unmatched o.metadata.name nps o.spec.pools)
        after sent (failed c pool_ready) (pass c pool_ready))
    ]

  -- It waits until the edge has no node pool.
  unfoldable pub finalize_edge : Exec (State W EdgeSpec V B Unit) Step
  unfolding failed
  finalize_edge = do
    s ← gets (λ s. s)
    elim (k.list_pools s.world s.object.metadata.name) [
      | err e ↦ failed c "NodePoolsDeleted" e
      | ok [] ↦ finalize c
      | ok (_ ∷ _) ↦ done c []
    ]

  unfoldable pub reconcile_edge :
      (Error → Option Error) → Result (Object EdgeSpec V B) → W → Outcome Response × W
  reconcile_edge ignore_not_found fetched = reconcile_fetched c ignore_not_found fetched (
      reconcile_object c (region_ready ∷ pool_ready ∷ []) finalize_edge
        (patch_defaults ∷ recon_region ∷ recon_pool ∷ []))
