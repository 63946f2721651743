-- ===== src/Region/Deleting.antt =====
-- What happens to a region that is being deleted.
use kl_internal_operator.Base.{ℕ, ◌≡◌, [], ◌∷◌, some}
use kl_internal_operator.Request.{Client, State}
use kl_internal_operator.Request.Converging.{Keeps}
use kl_internal_operator.Request.Keeping.{done_metadata}
use kl_internal_operator.Controller.{reconcile_object}
use kl_internal_operator.Controller.Keeping.{reconcile_object_stuck}
use kl_internal_operator.Domain.{record_up_to_date}
use kl_internal_operator.Region.{RegionSpec, RegionCluster, finalize_region, recon_update_record}

module _ {W V B : Type 0} (c : Client W RegionSpec V B) (k : RegionCluster W V)
    (keeps : Keeps c) where
  -- The reconciliation of a region that is being deleted leaves the metadata of the region,
  -- finalizers included, as it was, with a server that keeps what it is sent.
  pub finalize_region_stuck :
      (s : State W RegionSpec V B Unit) (t : ℕ)
      → s.object.metadata.deletion_timestamp ≡ some t
      → (reconcile_object c
          (record_up_to_date ∷ [])
          (finalize_region c k)
          (recon_update_record c k ∷ [])
          s).1.object.metadata
        ≡ s.object.metadata
  unfolding finalize_region
  finalize_region_stuck s t deleting =
      reconcile_object_stuck c keeps (record_up_to_date ∷ []) (finalize_region c k)
        (recon_update_record c k ∷ []) s t (done_metadata c keeps) deleting
