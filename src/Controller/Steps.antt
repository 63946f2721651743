-- ===== src/Controller/Steps.antt =====
-- A sequence of steps of a controller: all of them proceed, or the first that does not ends it.
use kl_internal_operator.Base.{
  ◌*◌, ◌≡◌, refl, true, false, List, [], ◌∷◌, ◌⊎◌, inl, inr, Bool-cases,
}
use kl_internal_operator.Exec.{Exec, Outcome, returned, panicked}
use kl_internal_operator.Controller.{Response, run_steps}
use kl_internal_operator.Request.{Client, State}
use kl_internal_operator.StepResult.{Step, should_proceed, reconciler_response, then_proceed}

-- All steps come back and let the reconciliation go on, from the first state to the last.
pub data AllProceed {S : Type 0} : List (Exec S Step) → S → S → Type 0 where
  no_step : {s : S} → AllProceed [] s s
  next :
      {m : Exec S Step} {ms : List (Exec S Step)} {s s' s'' : S} {st : Step}
      → m s ≡ (returned st, s')
      → should_proceed st ≡ true
      → AllProceed ms s' s''
      → AllProceed (m ∷ ms) s s''

-- The steps come to one that ends the reconciliation, with this outcome and state.
pub data EndsAt {S : Type 0} : List (Exec S Step) → S → Outcome Response × S → Type 0 where
  answered :
      {m : Exec S Step} {ms : List (Exec S Step)} {s s' : S} {st : Step}
      → m s ≡ (returned st, s')
      → should_proceed st ≡ false
      → EndsAt (m ∷ ms) s (returned (reconciler_response st), s')
  crashed :
      {m : Exec S Step} {ms : List (Exec S Step)} {s s' : S}
      → m s ≡ (panicked, s')
      → EndsAt (m ∷ ms) s (panicked, s')
  later :
      {m : Exec S Step} {ms : List (Exec S Step)} {s s' : S} {st : Step} {r : Outcome Response × S}
      → m s ≡ (returned st, s')
      → should_proceed st ≡ true
      → EndsAt ms s' r
      → EndsAt (m ∷ ms) s r

module _ {W S V B L : Type 0} (c : Client W S V B) where
  -- The answer after the last step: the status, with `is_ready` set, was sent; its error is the
  -- answer's, and the next reconciliation is due after 30 seconds.
  abbrev pub marked_ready : State W S V B L → Outcome Response × State W S V B L
  marked_ready s =
      let ready = record s.object { status = record s.object.status { is_ready = true } } in
      let (sent, o, w) = c.update_status s.world ready in
      (
        returned (record { requeue = false; requeue_after = 30 * 1000000000 }, sent),
        record s { object = o; world = w },
      )

  abbrev pub Ran :
      List (Exec (State W S V B L) Step)
      → State W S V B L
      → Outcome Response × State W S V B L
      → Type 0
  Ran steps s r =
      ((s' : State W S V B L) × AllProceed steps s s' × (r ≡ marked_ready s')) ⊎ EndsAt steps s r

  extend :
      (m : Exec (State W S V B L) Step) (ms : List (Exec (State W S V B L) Step))
      (s s' : State W S V B L) (st : Step) (r : Outcome Response × State W S V B L)
      → m s ≡ (returned st, s')
      → should_proceed st ≡ true
      → Ran ms s' r
      → Ran (m ∷ ms) s r
  extend m ms s s' st r e p (inl (s'', all, h)) = inl (s'', next e p all, h)
  extend m ms s s' st r e p (inr ends) = inr (later e p ends)

  by_outcome :
      (m : Exec (State W S V B L) Step) (ms : List (Exec (State W S V B L) Step))
      (s s' : State W S V B L) (o : Outcome Step)
      → m s ≡ (o, s')
      → Ran ms s' (run_steps c ms s')
      → Ran (m ∷ ms) s (run_steps c (m ∷ ms) s)
  unfolding run_steps then_proceed
  by_outcome m ms s s' panicked e rest = rw e (inr (crashed e))
  by_outcome m ms s s' (returned st) e rest = elim (Bool-cases (should_proceed st)) [
    | inl p ↦ rw (e, p) (extend m ms s s' st _ e p rest)
    | inr p ↦ rw (e, p) (inr (answered e p))
  ]

  -- The steps run in their order. Either every one proceeds, and the resource is marked ready and
  -- its status sent in the state that the last one left, or the first step that does not proceed
  -- ends the reconciliation with its own answer, or with its panic.
  pub run_steps-Ran :
      (steps : List (Exec (State W S V B L) Step)) (s : State W S V B L)
      → Ran steps s (run_steps c steps s)
  unfolding run_steps
  run_steps-Ran [] s = inl (s, no_step, refl)
  run_steps-Ran (m ∷ ms) s = by_outcome m ms s (m s).1 (m s).0 refl (run_steps-Ran ms (m s).1)
