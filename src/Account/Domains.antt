-- ===== src/Account/Domains.antt =====
-- controllers/common/account/account_controller.go: `reconDomain`, which Reconcile does not call. It
-- applies a domain for every region that shows the addresses of its nodes.
use Prim.Native.String.{◌++◌ as ◌<>◌}
use kl_internal_operator.Base.{String, Option, none, some, List, [], ◌∷◌}
use kl_internal_operator.Exec.{Exec, pure, gets, or_panic, ◌>>=◌}
use kl_internal_operator.GoMap.{GoMap, made}
use kl_internal_operator.Kube.{Error, Result, ok, err, new_error, OwnerReference}
use kl_internal_operator.Functions.{as_owner}
use kl_internal_operator.RawJson.{get_value}
use kl_internal_operator.StepResult.{Step}
use kl_internal_operator.Operator.{Object, get_local}
use kl_internal_operator.Request.{on_world, Client, State, after}
use kl_internal_operator.Request.Reports.{fail_check, pass_check}
use kl_internal_operator.Domain.{DomainSpec}
use kl_internal_operator.Region.{RegionSpec}
use kl_internal_operator.Management.{AccountSpec, Local, as_text, as_regions}
use kl_internal_operator.Account.Config.{account_wgs_config_ready}

-- What `KubectlApply` is given of a Domain.
pub record DomainObject : Type 0 where
  pub name : String
  pub labels : GoMap String
  pub owner_references : List OwnerReference
  pub spec : DomainSpec

-- `marshal_value` and `unmarshal_list` are json.Marshal and json.Unmarshal in `RawJson.Get`.
pub record DomainCluster (W V B : Type 0) : Type 0 where
  pub marshal_value : V → Result B
  pub unmarshal_list : B → Result (List V)
  pub apply_domain : W → DomainObject → Option Error × W
  pub wg_domain : String

abbrev pub domain_ready : String
domain_ready = "domain-ready"

abbrev pub node_ips_key : String
node_ips_key = "kloudlite.io/node-ips"

-- `ip.(string)` of every address, which panics at one that is no string.
unfoldable pub all_strings : {V : Type 0} → (V → Option String) → List V → Option (List String)
all_strings as_string [] = some []
all_strings as_string (v ∷ l) = elim (as_string v) [
  | none ↦ none
  | some s ↦ elim (all_strings as_string l) [ none ↦ none | some ss ↦ some (s ∷ ss) ]
]

unfoldable pub domain_object :
    {V B : Type 0}
    → String
    → String
    → Object AccountSpec V B
    → Object RegionSpec V B
    → List String
    → DomainObject
domain_object env_domain wg_domain account region ips = record {
  name = "wg-" <> (region.metadata.name <> ("-" <> account.metadata.name));
  labels = made (
      ("kloudlite.io/wg-domain", wg_domain)
      ∷ ("kloudlite.io/wg-region", region.metadata.name)
      ∷ ("kloudlite.io/wg-domain-account", account.metadata.name)
      ∷ []);
  owner_references = as_owner account.metadata [] ∷ as_owner region.metadata [] ∷ [];
  spec = record {
    name = region.metadata.name <> ("." <> (wg_domain <> (".wg." <> env_domain)));
    ips = ips;
  };
}

module _ {W V B : Type 0} (c : Client W AccountSpec V B) (k : DomainCluster W V B) where
  -- The addresses that the region shows; a text that cannot be read panics.
  abbrev pub shown_ips :
      Object RegionSpec V B → Exec (State W AccountSpec V B (Local V B)) (Result (List V))
  shown_ips region s = (
    (get_value c.json k.marshal_value k.unmarshal_list node_ips_key region.status.display_vars).0,
    s,
  )

  -- One round with the addresses of the region.
  unfoldable pub apply_region_domain :
      String
      → Object RegionSpec V B
      → List V
      → Exec (State W AccountSpec V B (Local V B)) (Option Error)
  apply_region_domain wg_domain region shown = do
    s ← gets (λ s. s)
    ips ← or_panic (all_strings c.json.as_string shown)
    on_world (λ w. k.apply_domain w (domain_object k.wg_domain wg_domain s.object region ips))

  -- The loop over the regions; a region that shows no addresses is passed over.
  unfoldable pub apply_domains :
      List (Object RegionSpec V B) → Exec (State W AccountSpec V B (Local V B)) (Option Error)
  apply_domains [] = pure none
  apply_domains (region ∷ regions) =
      let rest = apply_domains regions in
      do
        s ← gets (λ s. s)
        elim (get_local as_text s.locals "wg-domain") [
          | none ↦ pure (some (new_error "can't get wg domain"))
          | some wg_domain ↦ (do
            shown ← shown_ips region
            elim shown [
              | err e ↦ rest
              | ok ips ↦ (do
                sent ← apply_region_domain wg_domain region ips
                after sent (λ e. pure (some e)) rest)
            ])
        ]

  unfoldable pub recon_domain : Exec (State W AccountSpec V B (Local V B)) Step
  recon_domain = do
    s ← gets (λ s. s)
    elim (get_local as_regions s.locals "regions") [
      | none ↦ fail_check c account_wgs_config_ready "regions not found"
      | some regions ↦ (do
        sent ← apply_domains regions
        after sent (λ e. fail_check c account_wgs_config_ready e.message)
            (pass_check c domain_ready))
    ]
