-- ===== src/Request/Defs.antt =====
-- What a request of lib/operator.v2/request.go works on: the resource in memory and the world
-- outside (the API server, the clock, kubectl), which is any type `W` behind the record `Client`.
use Prim.Native.String.{◌++◌ as ◌<>◌}
use kl_internal_operator.Base.{ℕ, String, true, Option, none, some, List, [], ◌∷◌, string_eq}
use kl_internal_operator.Exec.{Exec, returned, modify}
use kl_internal_operator.GoMap.{GoMap}
use kl_internal_operator.Kube.{Error, Condition}
use kl_internal_operator.RawJson.{Json, RawJson}
use kl_internal_operator.StepResult
use kl_internal_operator.StepResult.{Step}
use kl_internal_operator.Operator.{Status, Object}

-- The calls that leave the operator. `update` and `update_status` send the object and give back
-- the object as the client leaves it; `kubectl` runs the command and answers its error.
pub record Client (W S V B : Type 0) : Type 0 where
  pub json : Json V B
  pub now : W → ℕ
  pub update : W → Object S V B → Option Error × Object S V B × W
  pub update_status : W → Object S V B → Option Error × Object S V B × W
  pub kubectl : W → List String → Option Error × W
  pub add_finalizer : List String → String → List String
  pub remove_finalizer : List String → String → List String
  pub find_condition : List Condition → String → Option Condition
  pub ensured_labels : Object S V B → GoMap String
  pub ensured_annotations : Object S V B → GoMap String

-- The request: the resource, the world and the scratch map of the controller, of values `L`.
pub record State (W S V B L : Type 0) : Type 0 where
  pub object : Object S V B
  pub world : W
  pub locals : GoMap L

abbrev pub clear_status_key : String
clear_status_key = "kloudlite.io/clear-status"

abbrev pub restart_key : String
restart_key = "kloudlite.io/do-restart"

abbrev pub common_finalizer : String
common_finalizer = "finalizers.kloudlite.io"

abbrev pub foreground_finalizer : String
foreground_finalizer = "foregroundDeletion"

abbrev pub failed_with_err : String
failed_with_err = "FailedWithErr"

-- `Next`: stepResult.New().Continue(true)
abbrev pub proceed : Step
proceed = StepResult.continue_with true StepResult.new

abbrev pub fail_with : Error → Step
fail_with e = StepResult.with_err (some e) StepResult.new

-- `if err != nil { return failed(err) }`, then `rest`.
abbrev pub after : {T A : Type 0} → Option Error → (Error → Exec T A) → Exec T A → Exec T A
after none failed rest = rest
after (some e) failed rest = failed e

-- The arguments of `kubectl.Restart` in lib/kubectl/main.go.
selectors : List (String × String) → List String
selectors [] = []
selectors ((k, v) ∷ l) = "-l" ∷ (k <> ("=" <> v)) ∷ selectors l

unfoldable pub restart_args : String → String → List (String × String) → List String
unfolding selectors
restart_args kind namespace labels =
    "rollout" ∷ "restart" ∷ kind ∷ "-n" ∷ namespace ∷ selectors labels

module _ {W S V B L : Type 0} where
  abbrev pub with_status : (Status V B → Status V B) → State W S V B L → State W S V B L
  with_status f s = record s { object = record s.object { status = f s.object.status } }

  abbrev pub with_annotations : GoMap String → State W S V B L → State W S V B L
  with_annotations a s = record s {
    object = record s.object { metadata = record s.object.metadata { annotations = a } };
  }

  abbrev pub with_labels : GoMap String → State W S V B L → State W S V B L
  with_labels l s = record s {
    object = record s.object { metadata = record s.object.metadata { labels = l } };
  }

  abbrev pub with_finalizers : List String → State W S V B L → State W S V B L
  with_finalizers f s = record s {
    object = record s.object { metadata = record s.object.metadata { finalizers = f } };
  }

  -- A call that may write to the world.
  abbrev pub on_world : {A : Type 0} → (W → A × W) → Exec (State W S V B L) A
  on_world f s = let (a, w) = f s.world in (returned a, record s { world = w })

  -- Run a method of the status' `Message`, and store what it leaves there.
  abbrev pub on_message : {A : Type 0} → Exec (RawJson V B) A → Exec (State W S V B L) A
  on_message m s =
      let (r, message) = m s.object.status.message in
      (r, with_status (λ st. record st { message = message }) s)

module _ {W S V B L : Type 0} (c : Client W S V B) where
  abbrev pub send_update : Exec (State W S V B L) (Option Error)
  send_update s =
      let (e, o, w) = c.update s.world s.object in (returned e, record s { object = o; world = w })

  abbrev pub send_status : Exec (State W S V B L) (Option Error)
  send_status s =
      let (e, o, w) = c.update_status s.world s.object in
      (returned e, record s { object = o; world = w })

  -- `LastReconcileTime = metav1.Time{Time: time.Now()}`
  abbrev pub stamp : Exec (State W S V B L) (Unit {0})
  stamp = modify (λ s. with_status (λ st. record st { last_reconcile_time = c.now s.world }) s)
