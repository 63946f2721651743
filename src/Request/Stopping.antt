-- ===== src/Request/Stopping.antt =====
-- Which of the common steps let the reconciliation go on, and what is known when they do.
use kl_internal_operator.Base.{
  ◌*◌, if◌then◌else◌, ◌≤◌, ◌≡◌, ◌≢◌, ◌⊎◌, inl, inr, Bool-cases, refl, String, Bool, true, false,
  Option, none, some, List, [], ◌∷◌, length, All, arith, ◌==◌, string_eq, not, nat_beq,
}
use kl_internal_operator.Exec.{Exec, Outcome, returned, panicked, pure, ◌>>=◌}
use kl_internal_operator.GoMap.{GoMap, entries, get, lookup, insert}
use kl_internal_operator.GoMap.Laws.{length-insert}
use kl_internal_operator.Kube.{Error, Condition, empty_result, second}
use kl_internal_operator.Functions.{contains_finalizers, map_contains, or_zero}
use kl_internal_operator.StepResult.{
  Step, should_proceed, new, continue_with, with_err, requeue_after,
}
use kl_internal_operator.Operator.{Check, zero_check}
use kl_internal_operator.Request.{
  Client, State, proceed, after, add_finalizers, write_checks, write_finalizers, clear_status,
  restart_all, reset_status, roll_out, clear_status_key, restart_key, fail_with_op_error,
  fail_with_status_error, ensure_checks, add_checks, ensure_finalizers,
  ensure_labels_and_annotations, clear_status_if_annotated, restart_if_annotated, done,
}

-- The step came back and the reconciliation ends with it.
abbrev pub Stops : Outcome Step → Type 0
Stops (returned st) = should_proceed st ≡ false
Stops panicked = ⊥

-- The step came back and the next one runs.
abbrev pub Proceeds : Outcome Step → Type 0
Proceeds (returned st) = should_proceed st ≡ true
Proceeds panicked = ⊥

add_checks_le :
    (names : List String) (l : List (String × Check)) → length l ≤ length (add_checks names l)
unfolding add_checks
add_checks_le [] l = omega arith
add_checks_le (n ∷ names) l = ground (
  arith,
  length-insert n zero_check l,
  add_checks_le names l,
  add_checks_le names (insert n zero_check l),
)

Stops-Proceeds : (o : Outcome Step) → Stops o → Proceeds o → ⊥
unfolding should_proceed
Stops-Proceeds (returned st) stops h = ground arith
Stops-Proceeds panicked stops h = h

-- If no name adds a check, every name has one.
pub add_checks_present :
    (names : List String) (l : List (String × Check))
    → length (add_checks names l) ≡ length l
    → All (λ n. lookup l n ≢ none) names
unfolding add_checks
add_checks_present [] l h = tt
add_checks_present (n ∷ names) l h = (
  ground (arith, length-insert n zero_check l, add_checks_le names (insert n zero_check l)),
  ground (
    arith,
    length-insert n zero_check l,
    add_checks_le names (insert n zero_check l),
    add_checks_present names l,
  ),
)

pub Proceeds-cases : (o : Outcome Step) → Proceeds o ⊎ (¬ Proceeds o)
Proceeds-cases panicked = inr (λ h. h)
Proceeds-cases (returned st) = elim (Bool-cases (should_proceed st)) [
  | inl p ↦ inl p
  | inr p ↦ inr (λ q. absurd (cc (p, q)))
]

add_checks_of_present :
    (names : List String) (l : List (String × Check))
    → All (λ n. lookup l n ≢ none) names
    → add_checks names l ≡ l
unfolding add_checks
add_checks_of_present [] l h = refl
add_checks_of_present (n ∷ names) l h = ground (arith, h.0, add_checks_of_present names l h.1)

module _ {W S V B L : Type 0} (c : Client W S V B) where
  -- A failure that is reported never lets the reconciliation go on.
  pub fail_with_op_error-Stops :
      (e : Error) (more : List Condition) (s : State W S V B L)
      → Stops (fail_with_op_error c (some e) more s).0
  unfolding fail_with_op_error new continue_with with_err should_proceed
  fail_with_op_error-Stops e more s = ground arith

  pub fail_with_status_error-Stops :
      (e : Error) (more : List Condition) (s : State W S V B L)
      → Stops (fail_with_status_error c (some e) more s).0
  unfolding fail_with_status_error new continue_with with_err should_proceed
  fail_with_status_error-Stops e more s = ground arith

  -- A step that stops whenever its test holds, and else passes.
  guard-Proceeds :
      (b : Bool) (wrote : Exec (State W S V B L) Step) (s : State W S V B L)
      → Stops (wrote s).0
      → Proceeds
          ((if b
              then wrote
              else pure (record { to_continue = true; requeue = empty_result; err = none }))
            s).0
      → (((if b
              then wrote
              else pure (record { to_continue = true; requeue = empty_result; err = none }))
            s).1
          ≡ s)
        × (b ≡ false)
  unfolding should_proceed
  guard-Proceeds true wrote s stops h = absurd (Stops-Proceeds (wrote s).0 stops h)
  guard-Proceeds false wrote s stops h = (refl, refl)

  fail-Stops :
      (sent : Option Error) (rest : Exec (State W S V B L) Step)
      → ((s : State W S V B L) → Stops (rest s).0)
      → (s : State W S V B L) → Stops (after sent (λ e. fail_with_op_error c (some e) []) rest s).0
  fail-Stops none rest h s = h s
  fail-Stops (some e) rest h s = fail_with_op_error-Stops e [] s

  pub done-Stops : (s : State W S V B L) → Stops (done c [] s).0
  unfolding done new with_err requeue_after should_proceed continue_with
  done-Stops s = ground arith

  requeued-Stops :
      (s : State W S V B L)
      → Stops ((do step ← done c []; pure (requeue_after (2 * second) step)) s).0
  unfolding done new with_err requeue_after should_proceed continue_with
  requeued-Stops s = ground arith

  pub write_checks-Stops :
      (checks : List (String × Check)) (s : State W S V B L) → Stops (write_checks c checks s).0
  unfolding write_checks new should_proceed
  write_checks-Stops checks s = fail-Stops _ (pure new) (λ s'. refl) _

  pub write_finalizers-Stops :
      (finalizers : List String) (s : State W S V B L) → Stops (write_finalizers c finalizers s).0
  unfolding write_finalizers new should_proceed
  write_finalizers-Stops finalizers s = fail-Stops _ (pure new) (λ s'. refl) _

  reset_status-Stops : (s : State W S V B L) → Stops (reset_status c s).0
  unfolding reset_status
  reset_status-Stops s =
      fail-Stops _ (do step ← done c []; pure (requeue_after (2 * second) step)) requeued-Stops _

  roll_out-Stops : (s : State W S V B L) → Stops (roll_out c s).0
  unfolding roll_out
  roll_out-Stops s = requeued-Stops _

  pub clear_status-Stops :
      (ann : GoMap String) (s : State W S V B L) → Stops (clear_status c ann s).0
  unfolding clear_status
  clear_status-Stops ann s = fail-Stops _ (reset_status c) reset_status-Stops _

  pub restart_all-Stops : (ann : GoMap String) (s : State W S V B L) → Stops (restart_all c ann s).0
  unfolding restart_all
  restart_all-Stops ann s = fail-Stops _ (roll_out c) roll_out-Stops _

  -- When `EnsureChecks` lets the reconciliation go on, it wrote nothing and every check is there.
  pub ensure_checks-Proceeds :
      (names : List String) (s : State W S V B L)
      → Proceeds (ensure_checks c names s).0
      → ((ensure_checks c names s).1 ≡ s) × All (λ n. get s.object.status.checks n ≢ none) names
  unfolding ensure_checks new continue_with with_err should_proceed
  ensure_checks-Proceeds names s h =
      let old = entries s.object.status.checks in
      let checks = add_checks names old in
      let same = not (nat_beq (length old) (length checks)) in
      let passed = guard-Proceeds same (write_checks c checks) s (write_checks-Stops checks s) h in
      (passed.0, add_checks_present names old (ground (arith, passed.1)))

  -- Where every check is there, the step passes the state on.
  pub ensure_checks-present :
      (names : List String) (s : State W S V B L)
      → All (λ n. get s.object.status.checks n ≢ none) names
      → ensure_checks c names s ≡ (returned proceed, s)
  unfolding ensure_checks
  ensure_checks-present names s present =
      let old = entries s.object.status.checks in
      rw (add_checks_of_present names old present) (ground arith)

  pub ensure_finalizers-Proceeds :
      (finalizers : List String) (s : State W S V B L)
      → Proceeds (ensure_finalizers c finalizers s).0
      → ((ensure_finalizers c finalizers s).1 ≡ s)
        × (contains_finalizers s.object.metadata.finalizers finalizers ≡ true)
  unfolding ensure_finalizers new continue_with with_err should_proceed
  ensure_finalizers-Proceeds finalizers s h =
      let present = s.object.metadata.finalizers in
      let missing = not (contains_finalizers present finalizers) in
      let all = add_finalizers c.add_finalizer present finalizers in
      let passed =
        guard-Proceeds missing (write_finalizers c all) s (write_finalizers-Stops all s) h in
      (passed.0, ground (arith, passed.1))

  pub ensure_labels_and_annotations-Proceeds :
      (s : State W S V B L)
      → Proceeds (ensure_labels_and_annotations c s).0
      → ((ensure_labels_and_annotations c s).1 ≡ s)
        × ((map_contains "" s.object.metadata.labels (c.ensured_labels s.object) ≡ true)
            × (map_contains "" s.object.metadata.annotations (c.ensured_annotations s.object)
                ≡ true))
  unfolding ensure_labels_and_annotations new continue_with with_err should_proceed
  ensure_labels_and_annotations-Proceeds s h = ground arith

  pub clear_status_if_annotated-Proceeds :
      (s : State W S V B L)
      → Proceeds (clear_status_if_annotated c s).0
      → ((clear_status_if_annotated c s).1 ≡ s)
        × ((or_zero "" (get s.object.metadata.annotations clear_status_key) == "true") ≡ false)
  unfolding clear_status_if_annotated done new continue_with with_err requeue_after should_proceed
  clear_status_if_annotated-Proceeds s h =
      let ann = s.object.metadata.annotations in
      guard-Proceeds (or_zero "" (get ann clear_status_key) == "true") (clear_status c ann) s
        (clear_status-Stops ann s) h

  pub restart_if_annotated-Proceeds :
      (s : State W S V B L)
      → Proceeds (restart_if_annotated c s).0
      → ((restart_if_annotated c s).1 ≡ s)
        × ((or_zero "" (get s.object.metadata.annotations restart_key) == "true") ≡ false)
  unfolding restart_if_annotated done new continue_with with_err requeue_after should_proceed
  restart_if_annotated-Proceeds s h =
      let ann = s.object.metadata.annotations in
      guard-Proceeds (or_zero "" (get ann restart_key) == "true") (restart_all c ann) s
        (restart_all-Stops ann s) h
