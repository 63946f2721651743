-- ===== src/Request/Reports.antt =====
-- How the steps of controllers/common and of the worker node controller end: the `failed` of each
-- step, and its last lines, where the check has passed.
use kl_internal_operator.Base.{Bool, ◌||◌, false, String, true, ◌!=◌, if◌then◌else◌, ◌≡◌, arith}
use kl_internal_operator.Exec.{Exec, Outcome, returned, panicked, resume, pure, gets, ◌>>=◌, ◌>>◌}
use kl_internal_operator.GoMap.{get}
use kl_internal_operator.Functions.{or_zero}
use kl_internal_operator.StepResult
use kl_internal_operator.StepResult.{Step, should_proceed}
use kl_internal_operator.Operator.{Check, zero_check, check_eq}
use kl_internal_operator.Request.Defs.{Client, State, proceed}
use kl_internal_operator.Request.Checks.{check_failed, set_check, update_status}

-- The step ends the reconciliation: it does not come back with a result to go on with.
abbrev pub Blocks : Outcome Step → Type 0
Blocks (returned st) = should_proceed st ≡ true → ⊥
Blocks panicked = Unit

module _ {W S V B L : Type 0} where
  -- `check := rApi.Check{Generation: obj.Generation}`
  abbrev pub current_check : State W S V B L → Check
  current_check s = record zero_check { generation = s.object.metadata.generation }

module _ {W S V B L : Type 0} (c : Client W S V B) where
  unfoldable pub fail_check : String → String → Exec (State W S V B L) Step
  fail_check name msg = do s ← gets (λ s. s); check_failed c name (current_check s) msg

  unfoldable pub pass_check : String → Exec (State W S V B L) Step
  pass_check name = do
    s ← gets (λ s. s)
    let check = record (current_check s) { status = true }
    if check != or_zero zero_check (get s.object.status.checks name)
        then (do set_check name check; update_status c)
        else pure proceed

  pub fail_check-Blocks :
      (name msg : String) (s : State W S V B L) → Blocks (fail_check name msg s).0
  unfolding fail_check check_failed set_check StepResult.new StepResult.with_err should_proceed
  fail_check-Blocks name msg s = ground arith

module _ {S A : Type 0} where
  -- What blocks whatever a computation before it gives.
  pub resume-Blocks :
      (o : Outcome A) (f : A → Exec S Step) (s : S)
      → ((a : A) (s' : S) → Blocks (f a s').0)
      → Blocks (resume o f s).0
  resume-Blocks (returned a) f s h = h a s
  resume-Blocks panicked f s h = tt

module _ {S : Type 0} where
  -- Both branches block.
  pub if-Blocks :
      (b : Bool) (f g : Exec S Step) (s : S)
      → Blocks (f s).0
      → Blocks (g s).0
      → Blocks ((if b then f else g) s).0
  if-Blocks true f g s p q = p
  if-Blocks false f g s p q = q

  -- The first branch blocks, and is taken.
  pub or-Blocks :
      (a b : Bool) (f g : Exec S Step) (s : S)
      → b ≡ true
      → Blocks (f s).0
      → Blocks ((if a || b then f else g) s).0
  or-Blocks true b f g s e p = p
  or-Blocks false true f g s e p = p
  or-Blocks false false f g s e p = absurd (cc e)
