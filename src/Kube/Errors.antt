-- ===== src/Kube/Errors.antt =====
-- Go errors as values, and the results of calls that may fail.
use kl_internal_operator.Base.{String, Bool, false, Option, none, some}

pub record Error : Type 0 where
  pub message : String
  pub not_found : Bool  -- apiErrors.IsNotFound

-- fmt.Errorf and errors.New without a verb
abbrev pub new_error : String → Error
new_error text = record { message = text; not_found = false }

pub data Result {ℓ} (A : Type ℓ) : Type ℓ where
  ok : A → Result A
  err : Error → Result A

abbrev pub error_of {ℓ} : {A : Type ℓ} → Result A → Option Error
error_of (ok a) = none
error_of (err e) = some e
