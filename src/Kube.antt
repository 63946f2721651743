-- ===== src/Kube.antt =====
-- The Kubernetes data that the operator reads and writes: errors, conditions, object metadata.
-- Of a Go error the code uses its text and whether `apiErrors.IsNotFound` holds of it.
mod Errors
pub use Errors.*
use kl_internal_operator.Base.{
  ℕ, String, Bool, true, false, ◌&&◌, Option, none, some, List, ◌≡◌, refl, ◌↔◌, arith, Eq, bool_beq,
  bool_beq_iff, text_beq, text_beq_iff,
}
use kl_internal_operator.Base.Integers.{ℤ, pos, int_beq, int_beq_iff}
use kl_internal_operator.GoMap.{GoMap}

-- metav1.Condition; a zero time is 0.
pub record Condition : Type 0 where
  pub ctype : String
  pub status : String
  pub observed_generation : ℤ
  pub last_transition_time : ℕ
  pub reason : String
  pub message : String

abbrev pub condition_true : String
condition_true = "True"

abbrev pub condition_false : String
condition_false = "False"

-- metav1.OwnerReference; the two pointers to a Boolean are options.
pub record OwnerReference : Type 0 where
  pub api_version : String
  pub kind : String
  pub name : String
  pub uid : String
  pub controller : Option Bool
  pub block_owner_deletion : Option Bool

-- The fields of metav1.ObjectMeta (and the kind of the TypeMeta) that the code uses.
pub record ObjectMeta : Type 0 where
  pub api_version : String
  pub kind : String
  pub name : String
  pub namespace : String
  pub cluster_name : String  -- set by nobody, and no part of the spec
  pub uid : String
  pub generation : ℤ
  pub deletion_timestamp : Option ℕ
  pub labels : GoMap String
  pub annotations : GoMap String
  pub finalizers : List String
  pub owner_references : List OwnerReference

-- ctrl.Result; durations are nanoseconds.
pub record CtrlResult : Type 0 where
  pub requeue : Bool
  pub requeue_after : ℕ

abbrev pub second : ℕ
second = 1000000000

abbrev pub empty_result : CtrlResult
empty_result = record { requeue = false; requeue_after = 0 }
