-- ===== src/Controller/Preparing/Common.antt =====
-- What the common steps of lib/operator.v2/request.go do to what a resource needs: each proceeds and
-- changes nothing, or stops with an object that needs less.
use kl_internal_operator.Base.{◌<◌, ◌≡◌, ap, ◌∙◌, ◌⊎◌, string_eq}
use kl_internal_operator.Exec.{Exec, returned}
use kl_internal_operator.StepResult.{Step}
use kl_internal_operator.Kube.{ObjectMeta}
use kl_internal_operator.Operator.{Object}
use kl_internal_operator.Request.{Client, State, proceed}
use kl_internal_operator.Request.Stopping.{Stops}
use kl_internal_operator.Request.Converging.{Keeps}
use kl_internal_operator.Controller.Preparing.{Wanted, Kept, rounds_left}

-- The object has the spec of the other, and these metadata.
abbrev pub Renewed : {S V B : Type 0} → Object S V B → ObjectMeta → Object S V B → Type 0
Renewed o m o' = (o'.spec ≡ o.spec) × (o'.metadata ≡ m)

pub Renewed-Kept :
    {S V B : Type 0} (o o' : Object S V B) (m : ObjectMeta)
    → Renewed o m o'
    → m.name ≡ o.metadata.name
    → m.deletion_timestamp ≡ o.metadata.deletion_timestamp
    → Kept o o'
Renewed-Kept o o' m (same_spec, metadata) name deletion = record {
  same_spec = same_spec;
  same_name = ap (λ m. m.name) metadata ∙ name;
  same_deletion = ap (λ m. m.deletion_timestamp) metadata ∙ deletion;
}

module _ {W S V B L : Type 0} (c : Client W S V B) (keeps : Keeps c) (want : Wanted) where
  -- The step passes the state on, or stops with an object that needs less.
  abbrev pub Advances : Exec (State W S V B L) Step → State W S V B L → Type 0
  Advances m s =
      (m s ≡ (returned proceed, s))
      ⊎ (Stops (m s).0
          × Kept s.object (m s).1.object
          × (rounds_left want (m s).1.object < rounds_left want s.object))
