-- ===== src/OlderOperator.antt =====
-- lib/operator/main.go: the request of the older library, before lib/operator.v2. Its status has
-- lists of conditions and no checks, and a step is a result with an error, each of which may be nil.
pub mod Unlabelled
use kl_internal_operator.Base.{
  ℕ, String, Bool, true, false, not, ◌&&◌, Option, none, some, List, [], ◌∷◌, string_eq,
  if◌then◌else◌,
}
use kl_internal_operator.Base.Integers.{pos}
use kl_internal_operator.Exec.{Exec, returned, pure, panic, or_panic, gets, modify, ◌>>=◌, ◌>>◌}
use kl_internal_operator.GoMap.{GoMap, nil_map, made, get, assign, entries, insert_all}
use kl_internal_operator.Kube.{
  Error, Condition, condition_false, ObjectMeta, CtrlResult, empty_result,
}
use kl_internal_operator.RawJson.{RawJson}
use kl_internal_operator.Conditions.{patch}
use kl_internal_operator.Functions.{map_contains}
use kl_internal_operator.StepResult.{is_nil}
use kl_internal_operator.Request.{failed_with_err, common_finalizer, foreground_finalizer}

pub record Status (V B : Type 0) : Type 0 where
  pub is_ready : Bool
  pub display_vars : RawJson V B
  pub generated_vars : RawJson V B
  pub conditions : List Condition
  pub status_conditions : List Condition
  pub ops_conditions : List Condition
  pub message : String

-- The interface `Resource`, with a spec `S`.
pub record Resource (S V B : Type 0) : Type 0 where
  pub metadata : ObjectMeta
  pub spec : S
  pub status : Status V B

-- The struct `stepResult`.
pub record Step : Type 0 where
  pub result : Option CtrlResult
  pub err : Option Error

-- `Result`
unfoldable pub result_of : Step → CtrlResult
result_of s = elim s.result [ none ↦ empty_result | some r ↦ r ]

unfoldable pub should_proceed : Step → Bool
should_proceed s = is_nil s.result && is_nil s.err

abbrev pub new_step_result : Option CtrlResult → Option Error → Step
new_step_result result err = record { result = result; err = err }

abbrev pub kl_finalizer : String
kl_finalizer = "klouldite-finalizer"

-- The API server and the clock, over a world `W`. A call gives its error and the object as the
-- client leaves it; `get` takes the namespace and the name.
pub record Client (W S V B : Type 0) : Type 0 where
  pub now : W → ℕ
  pub get : W → String × String → Resource S V B → Option Error × Resource S V B × W
  pub update : W → Resource S V B → Option Error × Resource S V B × W
  pub update_status : W → Resource S V B → Option Error × Resource S V B × W
  pub add_finalizer : List String → String → List String
  pub remove_finalizer : List String → String → List String
  pub find_condition : List Condition → String → Option Condition
  pub ensured_labels : Resource S V B → GoMap String
  pub ensured_annotations : Resource S V B → GoMap String

-- The request, with the world.
pub record State (W S V B L : Type 0) : Type 0 where
  pub object : Resource S V B
  pub world : W
  pub locals : GoMap L

module _ {W S V B L : Type 0} where
  abbrev pub with_status : (Status V B → Status V B) → State W S V B L → State W S V B L
  with_status f s = record s { object = record s.object { status = f s.object.status } }

  abbrev pub with_metadata : (ObjectMeta → ObjectMeta) → State W S V B L → State W S V B L
  with_metadata f s = record s { object = record s.object { metadata = f s.object.metadata } }

  -- `Next`
  abbrev pub next : Exec (State W S V B L) Step
  next = pure (new_step_result none none)

-- `GetLocal`, with `assert` for the type assertion; a key that is not there is a nil interface.
unfoldable pub get_local : {L T : Type 0} → (L → Option T) → GoMap L → String → Option T
get_local assert locals key = elim (get locals key) [ none ↦ none | some x ↦ assert x ]

unfoldable pub has_local : {L : Type 0} → GoMap L → String → Bool
has_local locals key = not (is_nil (get locals key))

-- A write to the nil map panics.
unfoldable pub set_local : {W S V B L : Type 0} → String → L → Exec (State W S V B L) (Unit {0})
set_local key value = do
  s ← gets (λ s. s)
  locals ← or_panic (assign s.locals key value)
  modify (λ s. record s { locals = locals })

-- `for k, v := range el { x[k] = v }`: over a nil map, x is a new map that nothing keeps.
unfoldable pub filled : GoMap String → GoMap String → GoMap String
filled nil_map el = nil_map
filled (made l) el = made (insert_all (entries el) l)

-- `e := ""; if err != nil { e = err.Error() }`
abbrev error_text : Option Error → String
error_text none = ""
error_text (some e) = e.message

failed : String → String → Condition
failed reason message = record {
  ctype = failed_with_err;
  status = condition_false;
  observed_generation = pos 0;
  last_transition_time = 0;
  reason = reason;
  message = message;
}

module _ {W S V B L : Type 0} (c : Client W S V B) where
  -- `NewRequest`, with `none` for nil
  unfoldable pub new_request : W → String × String → Resource S V B → Option (State W S V B L) × W
  new_request w nn instance_of =
      let (e, o, w2) = c.get w nn instance_of in
      elim e [
        | none ↦ (some (record { object = o; world = w2; locals = made [] }), w2)
        | some _ ↦ (none, w2)
      ]

  abbrev pub send_update : Exec (State W S V B L) (Option Error)
  send_update s =
      let (e, o, w) = c.update s.world s.object in (returned e, record s { object = o; world = w })

  abbrev pub send_status : Exec (State W S V B L) (Option Error)
  send_status s =
      let (e, o, w) = c.update_status s.world s.object in
      (returned e, record s { object = o; world = w })

  unfoldable pub ensure_finilizer : String → Exec (State W S V B L) Step
  ensure_finilizer name = do
    modify (with_metadata (λ m. record m { finalizers = c.add_finalizer m.finalizers name }))
    sent ← send_update
    pure (new_step_result none sent)

  unfoldable pub ensure_labels : Exec (State W S V B L) Step
  ensure_labels = do
    s ← gets (λ s. s)
    let el = c.ensured_labels s.object
    if not (map_contains "" s.object.metadata.labels el)
        then (do
          modify (with_metadata (λ m. record m { labels = filled m.labels el }))
          sent ← send_update
          pure (new_step_result (some empty_result) sent))
        else next

  unfoldable pub ensure_annotations : Exec (State W S V B L) Step
  ensure_annotations = do
    s ← gets (λ s. s)
    let el = c.ensured_annotations s.object
    if not (map_contains "" s.object.metadata.annotations el)
        then (do
          modify (with_metadata (λ m. record m { annotations = filled m.annotations el }))
          sent ← send_update
          pure (new_step_result (some empty_result) sent))
        else next

  -- A nil error has the text "".
  unfoldable pub fail_with_status_error : Option Error → Exec (State W S V B L) Step
  unfolding failed
  fail_with_status_error err = do
    s ← gets (λ s. s)
    let source = failed "StatusFailedWithErr" (error_text err) ∷ []
    let old = s.object.status.status_conditions
    let conditions = (patch c.find_condition (c.now s.world) old source).0
    modify (with_status (λ st. record st { status_conditions = conditions; is_ready = false }))
    sent ← send_status
    pure (new_step_result (some empty_result) (elim sent [ none ↦ err | some e ↦ some e ]))

  -- A nil error panics, and the error of `Patch`, nil, is assigned to the parameter.
  unfoldable pub fail_with_op_error : Option Error → Exec (State W S V B L) Step
  unfolding failed
  fail_with_op_error none = panic
  fail_with_op_error (some err) = do
    s ← gets (λ s. s)
    let source = failed "OpsFailedWithErr" err.message ∷ []
    let old = s.object.status.ops_conditions
    let conditions = (patch c.find_condition (c.now s.world) old source).0
    modify (with_status (λ st. record st { ops_conditions = conditions; is_ready = false }))
    sent ← send_status
    pure (elim sent [
      | none ↦ new_step_result (some empty_result) none
      | some e ↦ new_step_result (some (record empty_result { requeue = true })) (some e)
    ])

  -- `Done`; a pointer to a result may be nil.
  unfoldable pub done : List (Option CtrlResult) → Exec (State W S V B L) Step
  done result = do
    modify (with_status (λ st. record st { ops_conditions = []; status_conditions = [] }))
    sent ← send_status
    pure (elim sent [
      | none ↦ new_step_result (elim result [ [] ↦ some empty_result | r ∷ _ ↦ r ]) none
      | some e ↦ new_step_result (some empty_result) (some e)
    ])

  unfoldable pub finalize : Exec (State W S V B L) Step
  finalize = do
    modify (
        with_metadata (λ m. record m {
          finalizers =
              c.remove_finalizer
                (c.remove_finalizer (c.remove_finalizer m.finalizers kl_finalizer) common_finalizer)
                foreground_finalizer;
        }))
    sent ← send_update
    pure (new_step_result (some empty_result) sent)
