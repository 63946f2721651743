-- ===== src/Region.antt =====
-- controllers/common/region_controller.go and apis/management/v1/region_types.go: the controller of
-- regions, which keeps the DNS record of the addresses of a region's nodes. `UpsertDomain` of
-- lib/nameserver is a call of the record `RegionCluster`.
pub mod Addresses
pub mod Deleting
use Prim.Native.String.{◌++◌ as ◌<>◌}
use kl_internal_operator.Base.{String, Bool, Option, none, some, List, [], ◌∷◌, if◌then◌else◌}
use kl_internal_operator.Exec.{Exec, Outcome, pure, gets, act, ◌>>=◌, ◌>>◌}
use kl_internal_operator.GoMap.{GoMap, made, get}
use kl_internal_operator.Kube.{Error, Result, ok, err, ObjectMeta}
use kl_internal_operator.RawJson
use kl_internal_operator.RawJson.{RawJson}
use kl_internal_operator.StepResult.{Step}
use kl_internal_operator.Operator.{Object}
use kl_internal_operator.Request.{Client, State, after, done, with_status}
use kl_internal_operator.Request.Reports.{fail_check, pass_check}
use kl_internal_operator.Controller.{Response, reconcile_object, reconcile_fetched}
use kl_internal_operator.Domain.{record_up_to_date}

pub record RegionSpec : Type 0 where
  pub account_name : String
  pub is_master : Bool

-- `list_nodes` gives the metadata of the nodes with a label of this key and value; `of_strings` is
-- the JSON value of a slice of strings.
pub record RegionCluster (W V : Type 0) : Type 0 where
  pub list_nodes : W → String → String → Result (List ObjectMeta)
  pub upsert_domain : W → String → List String → Option Error × W
  pub of_strings : List String → V

abbrev pub domain_ready : String
domain_ready = "domain-ready"

abbrev pub external_ip : String
external_ip = "k3s.io/external-ip"

abbrev pub public_ip : String
public_ip = "kloudlite.io/public-ip"

-- The labels and annotations that a region is to have.
abbrev pub region_labels : {V B : Type 0} → Object RegionSpec V B → GoMap String
region_labels o = made (
    ("kloudlite.io/region", o.metadata.name)
    ∷ ("kloudlite.io/account.name", o.spec.account_name)
    ∷ [])

abbrev pub region_annotations : {V B : Type 0} → Object RegionSpec V B → GoMap String
region_annotations o = made []

-- The loop over the nodes: the annotation goes before the label, and a node with neither is left
-- out.
unfoldable pub node_ips : List ObjectMeta → List String
node_ips [] = []
node_ips (node ∷ nodes) =
    let rest = node_ips nodes in
    elim (get node.annotations external_ip) [
      | some ip ↦ ip ∷ rest
      | none ↦ elim (get node.labels public_ip) [ some ip ↦ ip ∷ rest | none ↦ rest ]
    ]

unfoldable pub record_name : {V B : Type 0} → Object RegionSpec V B → String
record_name o =
    if o.spec.is_master
    then o.metadata.name <> ".wg.khost.dev"
    else o.metadata.name <> ("." <> (o.spec.account_name <> ".wg.khost.dev"))

module _ {W V B : Type 0} (c : Client W RegionSpec V B) (k : RegionCluster W V) where
  list_nodes : State W RegionSpec V B Unit → Result (List ObjectMeta)
  list_nodes s =
      if s.object.spec.is_master
      then k.list_nodes s.world "node-role.kubernetes.io/master" "true"
      else k.list_nodes s.world "kloudlite.io/region" s.object.metadata.name

  -- `DisplayVars.Set`, whose error is dropped.
  set_node_ips : List String → Exec (State W RegionSpec V B Unit) (Option Error)
  set_node_ips ips s =
      let (r, vars) =
        RawJson.set c.json "kloudlite.io/node-ips" (k.of_strings ips)
          s.object.status.display_vars in
      (r, with_status (λ st. record st { display_vars = vars }) s)

  -- The failures are reported under another name than that of the check that passes.
  unfoldable pub recon_update_record : Exec (State W RegionSpec V B Unit) Step
  unfolding list_nodes set_node_ips
  recon_update_record = do
    s ← gets (λ s. s)
    elim (list_nodes s) [
      | err e ↦ fail_check c domain_ready e.message
      | ok nodes ↦ (do
        let ips = node_ips nodes
        _ ← set_node_ips ips
        sent ← act (λ s.
            let (e, w) = k.upsert_domain s.world (record_name s.object) ips in
            (e, record s { world = w }))
        after sent (λ e. fail_check c domain_ready e.message) (pass_check c record_up_to_date))
    ]

  -- No finalizer is taken away.
  unfoldable pub finalize_region : Exec (State W RegionSpec V B Unit) Step
  finalize_region = done c []

  unfoldable pub reconcile_region :
      (Error → Option Error) → Result (Object RegionSpec V B) → W → Outcome Response × W
  reconcile_region ignore_not_found fetched =
      reconcile_fetched c ignore_not_found fetched
        (reconcile_object c (record_up_to_date ∷ []) finalize_region (recon_update_record ∷ []))
