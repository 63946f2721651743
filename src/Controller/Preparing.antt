-- ===== src/Controller/Preparing.antt =====
-- What a resource still needs before the controller's own steps run, as tests on the object, and how
-- each write of the common steps changes that.
pub mod Writes
pub mod Common
pub mod Checks
pub mod Restart
pub mod Metadata
pub mod Synced
pub mod Chains
pub mod Rounds
use kl_internal_operator.Base.{
  ℕ, ◌+◌, ◌*◌, String, Bool, true, false, not, ◌||◌, Option, none, some, List, [], ◌∷◌, length,
  nat_beq, ◌==◌, string_eq, ◌≡◌,
}
use kl_internal_operator.GoMap.{GoMap, made, entries, get, lookup, len}
use kl_internal_operator.Functions.{map_contains, contains_finalizers, or_zero}
use kl_internal_operator.Operator.{Object, Check}
use kl_internal_operator.Request.{
  common_finalizer, foreground_finalizer, clear_status_key, restart_key, add_checks,
}
use kl_internal_operator.Functions.MapLaws.{HasDistinctKeys}

abbrev pub bit : Bool → ℕ
bit true = 1
bit false = 0

abbrev pub own_finalizers : List String
own_finalizers = foreground_finalizer ∷ common_finalizer ∷ []

-- The labels, annotations and checks that a resource is to have.
pub record Wanted : Type 0 where
  pub names : List String
  pub labels : List (String × String)
  pub annotations : List (String × String)

-- No key stands twice, and no annotation asks for a clear status or a restart.
pub record IsSound (want : Wanted) : Type 0 where
  pub labels-HasDistinctKeys : HasDistinctKeys want.labels
  pub annotations-HasDistinctKeys : HasDistinctKeys want.annotations
  pub clear_status-apart : lookup want.annotations clear_status_key ≡ none
  pub restart-apart : lookup want.annotations restart_key ≡ none

module _ {S V B : Type 0} where
  -- The object has the spec, the name and the timestamp of the other.
  pub record Kept (o o' : Object S V B) : Type 0 where
    pub same_spec : o'.spec ≡ o.spec
    pub same_name : o'.metadata.name ≡ o.metadata.name
    pub same_deletion : o'.metadata.deletion_timestamp ≡ o.metadata.deletion_timestamp

pub needs_checks : List String → GoMap Check → Bool
needs_checks names checks = not (nat_beq (len checks) (length (add_checks names (entries checks))))

pub needs_clear : GoMap String → Bool
needs_clear annotations = or_zero "" (get annotations clear_status_key) == "true"

pub needs_restart : GoMap String → Bool
needs_restart annotations = or_zero "" (get annotations restart_key) == "true"

pub needs_labels : Wanted → GoMap String → GoMap String → Bool
needs_labels want labels annotations =
    not (map_contains "" labels (made want.labels))
    || not (map_contains "" annotations (made want.annotations))

pub needs_finalizers : List String → Bool
needs_finalizers finalizers = not (contains_finalizers finalizers own_finalizers)

-- A status that is cleared has its checks written again.
abbrev pub total : Bool → Bool → Bool → Bool → Bool → ℕ
total clear checks restart labels finalizers =
    2 * bit clear + (bit checks + (bit restart + (bit labels + bit finalizers)))

-- The number of rounds that are left.
abbrev pub rounds_left : {S V B : Type 0} → Wanted → Object S V B → ℕ
rounds_left want o =
    let m = o.metadata in
    total (needs_clear m.annotations) (needs_checks want.names o.status.checks)
      (needs_restart m.annotations) (needs_labels want m.labels m.annotations)
      (needs_finalizers m.finalizers)
