-- ===== src/CloudProvider.antt =====
-- controllers/infra/cloudprovider_controller.go: the controller of cloud providers. It has no steps
-- of its own; its finalizer waits for the edges and deletes the provider's secret.
use kl_internal_operator.Base.{ℕ, zero, suc, String, Option, [], ◌∷◌, if◌then◌else◌}
use kl_internal_operator.Exec.{Exec, Outcome, gets, act, ◌>>=◌}
use kl_internal_operator.Kube.{Error, Result, ok, err}
use kl_internal_operator.StepResult.{Step}
use kl_internal_operator.Operator.{zero_check, Object}
use kl_internal_operator.Request.{Client, State, after, check_failed, done, finalize}
use kl_internal_operator.Controller.{Response, reconcile_object, reconcile_fetched}

abbrev pub edges_deleted : String
edges_deleted = "edges-deleted"

abbrev pub region_ready : String
region_ready = "region-ready"

abbrev pub pool_ready : String
pool_ready = "pool-ready"

abbrev pub kloudlite_ns : String
kloudlite_ns = "kl-core"

-- What the finalizer asks of the API server: the number of the provider's edges, the secret of a
-- namespace and name, and its deletion.
pub record Secrets (W Secret : Type 0) : Type 0 where
  pub count_edges : W → String → Result ℕ
  pub get_secret : W → String → String → Result Secret
  pub delete_secret : W → Secret → Option Error × W

module _ {W Secret V B : Type 0} (c : Client W Unit V B) (k : Secrets W Secret) where
  failed : Error → Exec (State W Unit V B Unit) Step
  failed e = do
    s ← gets (λ s. s)
    check_failed c edges_deleted (record zero_check { generation = s.object.metadata.generation })
        e.message

  delete_and_finalize : Result Secret → Exec (State W Unit V B Unit) Step
  delete_and_finalize (err e) = if e.not_found then finalize c else failed e
  delete_and_finalize (ok secret) = do
    sent ← act (λ s. let (e, w) = k.delete_secret s.world secret in (e, record s { world = w }))
    after sent failed (finalize c)

  -- Without an edge left, the secret is deleted.
  when_no_edge : ℕ → Exec (State W Unit V B Unit) Step
  when_no_edge zero = do
    s ← gets (λ s. s)
    delete_and_finalize (k.get_secret s.world kloudlite_ns s.object.metadata.name)
  when_no_edge (suc n) = done c []

  -- A list of edges that is not found counts as empty.
  unfoldable pub finalize_provider : Exec (State W Unit V B Unit) Step
  unfolding failed delete_and_finalize when_no_edge
  finalize_provider = do
    s ← gets (λ s. s)
    elim (k.count_edges s.world s.object.metadata.name) [
      | err e ↦ if e.not_found then when_no_edge zero else failed e
      | ok n ↦ when_no_edge n
    ]

  unfoldable pub reconcile_provider :
      (Error → Option Error) → Result (Object Unit V B) → W → Outcome Response × W
  reconcile_provider ignore_not_found fetched =
      reconcile_fetched c ignore_not_found fetched
        (reconcile_object c (region_ready ∷ pool_ready ∷ []) finalize_provider [])
