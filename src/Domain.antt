-- ===== src/Domain.antt =====
-- controllers/common/domain_controller.go and apis/management/v1/domain_types.go: the controller of
-- domains, which keeps the DNS record of a domain. The calls of lib/nameserver, with the reading of
-- their answers, are the record `Nameserver`.
pub mod Records
use Prim.Native.Nat.{lt, eq, gt}
use Prim.Native.String.{compare}
use kl_internal_operator.Base.{
  String, Bool, true, false, Option, none, some, List, [], ◌∷◌, ◌!=◌, string_eq, if◌then◌else◌,
}
use kl_internal_operator.Exec.{Exec, Outcome, pure, gets, modify, act, ◌>>=◌, ◌>>◌}
use kl_internal_operator.GoMap.{get}
use kl_internal_operator.Kube.{Error, Result, ok, err}
use kl_internal_operator.Functions.{or_zero}
use kl_internal_operator.StepResult.{Step}
use kl_internal_operator.Operator.{Check, zero_check, check_eq, Object}
use kl_internal_operator.Request.{
  Client, State, after, proceed, check_failed, set_check, update_status, finalize,
  fail_with_status_error,
}
use kl_internal_operator.Controller.{Response, reconcile_object, reconcile_fetched}

pub record DomainSpec : Type 0 where
  pub name : String
  pub ips : List String

-- `get_answers` is GetRecord, ReadAll and json.Unmarshal, whose error is only printed and leaves
-- no answers; its error here is that of the first two.
pub record Nameserver (W : Type 0) : Type 0 where
  pub get_answers : W → String → Result (List String)
  pub upsert_domain : W → String → List String → Option Error × W
  pub delete_domain : W → String → Option Error × W

abbrev pub record_up_to_date : String
record_up_to_date = "record-up-to-date"

-- `sort.Slice` by `>`; equal strings are interchangeable, so that its order of them does not matter.
insert_sorted : String → List String → List String
insert_sorted ip [] = ip ∷ []
insert_sorted ip (other ∷ ips) =
    let rest = insert_sorted ip ips in
    elim (compare other ip) [ gt ↦ other ∷ rest | eq ↦ ip ∷ other ∷ ips | lt ↦ ip ∷ other ∷ ips ]

unfoldable pub sort_down : List String → List String
unfolding insert_sorted
sort_down [] = []
sort_down (ip ∷ ips) = insert_sorted ip (sort_down ips)

-- The loop over the addresses of the domain: is one of them not the answer at its place?
unfoldable pub not_matched : List String → List String → Bool
not_matched [] answers = false
not_matched (v ∷ ips) [] = true
not_matched (v ∷ ips) (answer ∷ answers) = if v != answer then true else not_matched ips answers

module _ {W V B : Type 0} (c : Client W DomainSpec V B) (k : Nameserver W) where
  failed : String → Exec (State W DomainSpec V B Unit) Step
  failed msg = do
    s ← gets (λ s. s)
    check_failed c record_up_to_date
        (record zero_check { generation = s.object.metadata.generation }) msg

  -- `UpsertDomain` where the record does not match.
  upsert : List String → Exec (State W DomainSpec V B Unit) (Option Error)
  upsert answers = do
    s ← gets (λ s. s)
    let spec = s.object.spec
    if not_matched spec.ips answers
        then act (λ s.
          let (e, w) = k.upsert_domain s.world spec.name spec.ips in (e, record s { world = w }))
        else pure none

  pass : Exec (State W DomainSpec V B Unit) Step
  pass = do
    s ← gets (λ s. s)
    let check = record zero_check { status = true; generation = s.object.metadata.generation }
    if check != or_zero zero_check (get s.object.status.checks record_up_to_date)
        then (do set_check record_up_to_date check; update_status c)
        else pure proceed

  -- The addresses of the resource in memory are sorted in place.
  unfoldable pub recon_update_record : Exec (State W DomainSpec V B Unit) Step
  unfolding failed upsert pass
  recon_update_record = do
    s ← gets (λ s. s)
    elim (get s.object.metadata.labels "kloudlite.io/wg-domain") [
      | none ↦ failed "wg-domain not provided in labels of"
      | some _ ↦ elim (k.get_answers s.world s.object.spec.name) [
        | err e ↦ failed e.message
        | ok answers ↦ (do
          modify (λ s. record s {
            object = record s.object {
              spec = record s.object.spec { ips = sort_down s.object.spec.ips };
            };
          })
          sent ← upsert (sort_down answers)
          after sent (λ e. failed e.message) pass)
      ]
    ]

  unfoldable pub finalize_domain : Exec (State W DomainSpec V B Unit) Step
  finalize_domain = do
    sent ← act (λ s.
        let (e, w) = k.delete_domain s.world s.object.spec.name in (e, record s { world = w }))
    after sent (λ e. fail_with_status_error c (some e) []) (finalize c)

  unfoldable pub reconcile_domain :
      (Error → Option Error) → Result (Object DomainSpec V B) → W → Outcome Response × W
  reconcile_domain ignore_not_found fetched =
      reconcile_fetched c ignore_not_found fetched
        (reconcile_object c (record_up_to_date ∷ []) finalize_domain (recon_update_record ∷ []))
