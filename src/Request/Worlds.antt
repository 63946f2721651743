-- ===== src/Request/Worlds.antt =====
-- What the shared steps do to the world: of the API server they call the update of the status, and
-- nothing else.
use mathlib.Core.Path.{subst}
use kl_internal_operator.Base.{
  Bool, true, false, ◌!=◌, if◌then◌else◌, Option, none, some, sym, ◌≡◌, refl, String, List, [], ◌∷◌,
  arith,
}
use kl_internal_operator.Exec.{Exec, ◌>>◌, Outcome, returned, panicked, resume, pure, ◌>>=◌}
use kl_internal_operator.Kube.{Error}
use kl_internal_operator.StepResult
use kl_internal_operator.GoMap.{entries, get}
use kl_internal_operator.RawJson
use kl_internal_operator.Operator.{zero_check, check_eq, Check, Object}
use kl_internal_operator.Request.Defs.{
  proceed, Client, State, after, fail_with, send_status, with_status,
}
use kl_internal_operator.Request.Checks.{
  set_check, drop_message, drop_messages, update_status, check_failed,
}
use kl_internal_operator.Request.Reports.{current_check, pass_check, fail_check}
use kl_internal_operator.Functions.{or_zero}

module _ {W S V B L : Type 0} where
  set_check-world :
      (name : String) (check : Check) (s : State W S V B L)
      → (set_check name check s).1.world ≡ s.world
  unfolding set_check
  set_check-world name check s = ground arith

module _ {W S V B L : Type 0} (c : Client W S V B) where
  drop_message-world :
      (name : String) (s : State W S V B L) → (drop_message c name s).1.world ≡ s.world
  unfolding drop_message
  drop_message-world name s = ground arith

  drop_messages-world :
      (checks : List (String × Check)) (s : State W S V B L)
      → (drop_messages c checks s).1.world ≡ s.world
  unfolding drop_messages
  drop_messages-world [] s = refl
  drop_messages-world ((name, check) ∷ checks) s = ground (
    arith,
    drop_message-world name s,
    drop_messages-world checks s,
    drop_messages-world checks (drop_message c name s).1,
  )

module _ {W S V B L : Type 0} (c : Client W S V B) (P : W → Type 0)
    (keeps : (w : W) (o : Object S V B) → P w → P (c.update_status w o).2) where
  send_after :
      (o : Outcome (Option Error)) (s : State W S V B L)
      → P s.world
      → P
          (resume o
            (λ dropped.
              after dropped
                (λ e. pure (fail_with e))
                (do sent ← send_status c; pure (StepResult.with_err sent StepResult.new)))
            s).1.world
  send_after (returned none) s p = keeps s.world s.object p
  send_after (returned (some e)) s p = p
  send_after panicked s p = p

  pub update_status_world : (s : State W S V B L) → P s.world → P (update_status c s).1.world
  unfolding update_status
  update_status_world s p =
      let stamped = with_status (λ st. record st { last_reconcile_time = c.now s.world }) s in
      let checks = entries s.object.status.checks in
      send_after (drop_messages c checks stamped).0 (drop_messages c checks stamped).1
        (subst P (sym (drop_messages-world c checks stamped)) p)

  pub resume_world :
      {A C : Type 0} (o : Outcome A) (f : A → Exec (State W S V B L) C) (s : State W S V B L)
      → ((a : A) (s : State W S V B L) → P s.world → P (f a s).1.world)
      → P s.world
      → P (resume o f s).1.world
  resume_world (returned a) f s h p = h a s p
  resume_world panicked f s h p = p

  if_world :
      {A : Type 0} (b : Bool) (m n : Exec (State W S V B L) A) (s : State W S V B L)
      → P (m s).1.world
      → P (n s).1.world
      → P ((if b then m else n) s).1.world
  if_world true m n s p q = p
  if_world false m n s p q = q

  set_check_world :
      (name : String) (check : Check) (s : State W S V B L)
      → P s.world
      → P (set_check name check s).1.world
  set_check_world name check s p = subst P (sym (set_check-world name check s)) p

  pub fail_check_world :
      (name msg : String) (s : State W S V B L) → P s.world → P (fail_check c name msg s).1.world
  unfolding fail_check check_failed
  fail_check_world name msg s p =
      let check = record (current_check s) { status = false; message = msg } in
      resume_world (set_check name check s).0 _ (set_check name check s).1
        (λ done s p.
          resume_world (RawJson.set c.json name (c.json.of_string msg) s.object.status.message).0 _
            _ (λ e s p. keeps s.world _ p) p)
        (set_check_world name check s p)

  pub pass_check_world :
      (name : String) (s : State W S V B L) → P s.world → P (pass_check c name s).1.world
  unfolding pass_check
  pass_check_world name s p =
      let check = record (current_check s) { status = true } in
      if_world (check != or_zero zero_check (get s.object.status.checks name))
        (do set_check name check; update_status c) (pure proceed) s
        (resume_world (set_check name check s).0 (λ done. update_status c)
          (set_check name check s).1 (λ done s p. update_status_world s p)
          (set_check_world name check s p))
        p
