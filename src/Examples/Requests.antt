-- ===== src/Examples/Requests.antt =====
-- The properties of the requests, the status and the helpers at concrete inputs.
use kl_internal_operator.Base.{
  ℕ, ◌/◌, inl, inr, Option, ◌≡◌, refl, ◌≢◌, ◌⊎◌, String, false, none, some, List, [], ◌∷◌, Any, ◌↔◌,
  text_beq, if◌then◌else◌, string_eq, arith,
}
use kl_internal_operator.Base.Integers.{pos}
use kl_internal_operator.Exec.{Exec, Outcome, returned}
use kl_internal_operator.GoMap.{GoMap, entries, made, nil_map, get, lookup}
use kl_internal_operator.Kube.{ok, OwnerReference, empty_result}
use kl_internal_operator.RawJson
use kl_internal_operator.RawJson.Laws.{KeepsStrings, text_value, get_string-set}
use kl_internal_operator.Conditions.{patch, find_first}
use kl_internal_operator.Conditions.PatchLaws.{SameAnswer, patch-SameAnswer}
use kl_internal_operator.StepResult.{Step, then_proceed}
use kl_internal_operator.Operator.{Check, zero_check}
use kl_internal_operator.Request.{
  State, common_finalizer, foreground_finalizer, failed_with_err, fail_with_op_error, check_failed,
  ensure_checks, set_check, finalize, done,
}
use kl_internal_operator.Request.Converging.{EnsuresApart}
use kl_internal_operator.Request.Keeping.{finalize_lem}
use kl_internal_operator.Request.Reporting.{fail_with_op_error_stale, check_failed_lem}
use kl_internal_operator.Controller.{Response, run_steps, reconcile_object}
use kl_internal_operator.Controller.Steps.{Ran, run_steps-Ran}
use kl_internal_operator.Controller.Prepared.{
  HasChecks, Prepared, stopped_with, reconcile_object-Prepared, reconcile_object_deleting,
}
use kl_internal_operator.Examples.{
  Resource, storing, storing-Keeps, storing-Stores, request, without_finalizer-RemovesFinalizer,
  server, server-Keeps, find_first-FindsFirst, failure, timeout, state,
}

abbrev Example : Type 0
Example = State Unit Unit String (List (String × String)) Unit

abbrev ready : GoMap Check
ready = made (("ready", zero_check) ∷ [])

abbrev live : Example
live = state tt none ready

abbrev unprepared : Example
unprepared = state tt none nil_map

abbrev dying : Example
dying = state tt (some 5) ready

apart : EnsuresApart (server {W = Unit}) live.object
apart = record {
  label_list = ("kloudlite.io/account-name", "acc") ∷ [];
  annotation_list = [];
  labels-HasDistinctKeys = (unfold lookup in refl, tt);
  annotations-HasDistinctKeys = tt;
  ensured_labels-apart = λ l a. refl;
  ensured_annotations-apart = λ l a. refl;
}

-- A request of a resource that the server has.
abbrev kept_request : State (Resource Unit) Unit String (List (String × String)) Unit
kept_request = request live.object

fail_with_op_error_stale_example :
    find_first
      (fail_with_op_error server (some timeout) [] live).1.object.status.ops_conditions
      failed_with_err
    ≡ some failure
fail_with_op_error_stale_example =
    fail_with_op_error_stale server server-Keeps find_first-FindsFirst timeout [] live failure
      (refl, tt) refl

check_failed_lem_example :
    let o = (check_failed storing "ready" zero_check "no answer" kept_request).1.world in
    (o.status.is_ready ≡ false)
    × (get o.status.checks "ready" ≡ (
        if text_beq "ready" "ready"
        then some (record { status = false; message = "no answer"; generation = pos 0 })
        else lookup (("ready", zero_check) ∷ []) "ready"))
check_failed_lem_example =
    check_failed_lem storing storing-Keeps storing-Stores "ready" zero_check "no answer"
      kept_request (("ready", zero_check) ∷ []) refl
      (unfold check_failed set_check RawJson.set RawJson.fill_map RawJson.complete in ground arith)
      "ready"

run_steps-Ran_example :
    Ran server (done server [] ∷ []) live (run_steps server (done server [] ∷ []) live)
run_steps-Ran_example = run_steps-Ran server (done server [] ∷ []) live

reconcile_object-Prepared_example :
    ((HasChecks server ("ready" ∷ []) live × Prepared server live)
      × ((steps : List (Exec Example Step))
          → reconcile_object server ("ready" ∷ []) (finalize server) steps live
            ≡ run_steps server steps live))
    ⊎ ((r : Outcome Response × Example) × ((steps : List (Exec Example Step))
          → reconcile_object server ("ready" ∷ []) (finalize server) steps live ≡ r))
reconcile_object-Prepared_example =
    reconcile_object-Prepared server ("ready" ∷ []) (finalize server) live refl

reconcile_object_deleting_example :
    (HasChecks server ("ready" ∷ []) dying
      × ((steps : List (Exec Example Step))
          → reconcile_object server ("ready" ∷ []) (finalize server) steps dying
            ≡ then_proceed (finalize server) (λ s. (returned (empty_result, none), s)) dying))
    ⊎ ((¬ HasChecks server ("ready" ∷ []) dying)
        × ((steps : List (Exec Example Step))
            → reconcile_object server ("ready" ∷ []) (finalize server) steps dying
              ≡ stopped_with
                  (ensure_checks server ("ready" ∷ []) dying).0
                  (ensure_checks server ("ready" ∷ []) dying).1))
reconcile_object_deleting_example =
    reconcile_object_deleting server ("ready" ∷ []) (finalize server) dying 5 refl

patch-SameAnswer_example :
    SameAnswer
      (find_first (patch find_first 9 (failure ∷ []) []).0 "FailedWithErr")
      (find_first [] "FailedWithErr")
patch-SameAnswer_example =
    patch-SameAnswer find_first find_first-FindsFirst 9 (failure ∷ []) [] "FailedWithErr"

-- JSON of texts and numbers, whose numbers come back without their fraction.
abbrev rounded : List (String × (String ⊎ ℕ)) → List (String × (String ⊎ ℕ))
rounded [] = []
rounded ((k, inl text) ∷ l) = (k, inl text) ∷ rounded l
rounded ((k, inr n) ∷ l) = (k, inr (n / 10)) ∷ rounded l

abbrev text_of : String ⊎ ℕ → Option String
text_of (inl text) = some text
text_of (inr n) = none

abbrev mixed : RawJson.Json (String ⊎ ℕ) (List (String × (String ⊎ ℕ)))
mixed = record {
  marshal = λ m. ok (entries m);
  unmarshal = λ b. ok (made (rounded b));
  as_string = text_of;
  of_string = λ text. inl text;
}

lookup-rounded :
    (l : List (String × (String ⊎ ℕ))) (k : String) (text : Option String)
    → lookup l k ≡ text_value mixed text
    → lookup (rounded l) k ≡ text_value mixed text
unfolding lookup
lookup-rounded [] k text e = e
lookup-rounded ((j, inl t) ∷ l) k text e = ground (arith, e, lookup-rounded l k text)
lookup-rounded ((j, inr n) ∷ l) k none e = ground (arith, e, lookup-rounded l k none)
lookup-rounded ((j, inr n) ∷ l) k (some t) e = ground (arith, e, lookup-rounded l k (some t))

strings_kept : KeepsStrings mixed
strings_kept = record {
  as_string-of_string = λ text. refl;
  decoded = λ b. made (rounded b);
  unmarshal-marshal = λ m b e. ground (arith, e);
  get-decoded = λ m b k text e there. ground (arith, e, lookup-rounded (entries m) k text, there);
}

abbrev numbered : RawJson.RawJson (String ⊎ ℕ) (List (String × (String ⊎ ℕ)))
numbered = record { items = made (("n", inr 15) ∷ ("b", inl "y") ∷ []); raw_message = none }

get_string-set_example :
    (RawJson.get_string mixed "b" (RawJson.set mixed "a" (inl "x") numbered).1).0
    ≡ returned (if text_beq "a" "b" then some "x" else some "y")
unfolding RawJson.set RawJson.get_string RawJson.fill_map RawJson.complete lookup
get_string-set_example = get_string-set mixed strings_kept "a" "b" "x" numbered (some "y") refl refl

abbrev owner : OwnerReference
owner = record {
  api_version = "v1";
  kind = "Edge";
  name = "e";
  uid = "u";
  controller = none;
  block_owner_deletion = none;
}

finalize_lem_example :
    Any (λ h. h ≡ "other") (finalize storing kept_request).1.world.metadata.finalizers ↔ (
      (Any (λ h. h ≡ "other") kept_request.object.metadata.finalizers
        × ("other" ≢ common_finalizer))
      × ("other" ≢ foreground_finalizer))
finalize_lem_example =
    finalize_lem storing storing-Keeps storing-Stores kept_request "other"
      without_finalizer-RemovesFinalizer
