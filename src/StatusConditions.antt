-- ===== src/StatusConditions.antt =====
-- lib/functions/conditions.go: the two builders of status conditions, `statusConditions`, which has
-- its list, and `conditions2`, which writes the caller's. What is asked of pkg/api/meta is the record
-- `Meta`; a zero time is 0. Here are `statusConditions` and what both share; Sources has its builders
-- from what the API server answers, and Second has `conditions2`.
pub mod Marking
pub mod Sources
pub mod Conditions2
pub mod Second
pub mod Agreement
use Prim.Native.String.{◌++◌ as ◌<>◌}
use kl_internal_operator.Base.{
  ℕ, String, Bool, true, false, not, ◌||◌, Option, none, some, List, [], ◌∷◌, length, map, ◌==◌,
  ◌!=◌, nat_beq, nat_eq, ltb, string_eq, if◌then◌else◌,
}
use kl_internal_operator.Base.Integers.{pos}
use kl_internal_operator.Kube.{Error, Condition, condition_true, condition_false}
use kl_internal_operator.Conditions.{specified}

-- meta.FindStatusCondition, SetStatusCondition, IsStatusConditionTrue and IsStatusConditionFalse
pub record Meta : Type 0 where
  pub find_status_condition : List Condition → String → Option Condition
  pub set_status_condition : List Condition → Condition → List Condition
  pub is_status_condition_true : List Condition → String → Bool
  pub is_status_condition_false : List Condition → String → Bool

pub record StatusConditions : Type 0 where
  pub lt : ℕ
  pub conditions : List Condition

abbrev pub condition_ready : String
condition_ready = "Ready"

abbrev pub error_reason : String
error_reason = "SomeChecksFailed"

abbrev pub success_reason : String
success_reason = "AllChecksCompleted"

abbrev pub status_from_bool : Bool → String
status_from_bool b = if b then condition_true else condition_false

-- The latest transition that was seen.
abbrev later : ℕ → Condition → ℕ
later lt cond = if ltb lt cond.last_transition_time then cond.last_transition_time else lt

-- The condition that a round of `Build` sets, with the latest transition after it.
unfoldable pub built : ℕ → String → Condition → Condition
built lt group cond =
    let reason = specified cond.reason in
    let timed = record cond {
      reason = reason;
      last_transition_time =
          (if cond.last_transition_time == 0 then lt else cond.last_transition_time);
    } in
    if group != ""
    then record timed { reason = group <> (":" <> reason); ctype = group <> cond.ctype }
    else timed

abbrev pub ready_condition : String → String → String → Condition
ready_condition status reason msg = record {
  ctype = condition_ready;
  status = status;
  observed_generation = pos 0;
  last_transition_time = 0;
  reason = reason;
  message = msg;
}

abbrev pub first_or : String → List String → String
first_or text [] = text
first_or text (s ∷ ss) = s

module _ (meta : Meta) where
  -- `Build`
  unfoldable pub build : String → List Condition → StatusConditions → StatusConditions
  build group [] s = s
  build group (cond ∷ conds) s =
      let lt = later s.lt cond in
      build group conds (record {
        lt = lt;
        conditions = meta.set_status_condition s.conditions (built lt group cond);
      })

  abbrev pub same_condition : Condition → Option Condition → Bool
  same_condition c none = false
  same_condition c (some st) =
      not (st.reason != c.reason || (st.message != c.message || st.status != c.status))

  all_found : List Condition → List Condition → Bool
  all_found [] other = true
  all_found (c ∷ cs) other =
      if same_condition c (meta.find_status_condition other c.ctype)
      then all_found cs other
      else false

  -- `Equal`.
  unfoldable pub equal : List Condition → List Condition → Bool
  unfolding all_found
  equal first second =
      if not (nat_beq (length first) (length second)) then false else all_found first second

  -- `SetReady`
  unfoldable pub set_ready : String → String → String → StatusConditions → StatusConditions
  set_ready status reason msg = build "" (ready_condition status reason msg ∷ [])

  -- `MarkNotReady`.
  unfoldable pub mark_not_ready : Error → List String → StatusConditions → StatusConditions
  mark_not_ready e reason = set_ready condition_false (first_or error_reason reason) e.message

  -- `MarkReady`: it sets the status False.
  unfoldable pub mark_ready : String → List String → StatusConditions → StatusConditions
  mark_ready msg reason = set_ready condition_false (first_or success_reason reason) msg

-- The parts of corev1.Pod that `BuildFromPods` reads. `running` is the text of `StartedAt`.
pub record ContainerState : Type 0 where
  pub name : String
  pub ready : Bool
  pub waiting : Option (String × String)
  pub running : Option String

pub record PodStatus : Type 0 where
  pub pod_conditions : List Condition
  pub container_states : List ContainerState

unfoldable pub pod_condition : String → Condition → Condition
pod_condition idx c = record {
  ctype = "Pod-idx-" <> (idx <> ("-" <> c.ctype));
  status = c.status;
  observed_generation = pos 0;
  last_transition_time = c.last_transition_time;
  reason = "Pod:Idx:" <> (idx <> ":NotSpecified");
  message = c.message;
}

-- A running container's reason goes over that of a waiting one.
reason_and_message : ContainerState → String × String
reason_and_message cs = elim cs.running [
  | some since ↦ ("Running", "Container running since " <> since)
  | none ↦ elim cs.waiting [ none ↦ ("", "") | some w ↦ w ]
]

unfoldable pub container_condition : ContainerState → Condition
unfolding reason_and_message
container_condition cs =
    let (reason, message) = reason_and_message cs in
    record {
      ctype = "Name-" <> cs.name;
      status = status_from_bool cs.ready;
      observed_generation = pos 0;
      last_transition_time = 0;
      reason = reason;
      message = message;
    }

-- The loop returns in its first round, so only the first pod is looked at.
unfoldable pub build_from_pods : Meta → List PodStatus → StatusConditions → StatusConditions
unfolding pod_condition container_condition
build_from_pods meta [] s = s
build_from_pods meta (pod ∷ pods) s =
    build meta "Container" (map container_condition pod.container_states)
      (build meta "" (map (pod_condition "0") pod.pod_conditions) s)
