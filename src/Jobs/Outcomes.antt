-- ===== src/Jobs/Outcomes.antt =====
-- How the questions of lib/job-helpers.go about a finished job agree.
use kl_internal_operator.Base.{
  ◌≡◌, ◌⊎◌, inl, inr, refl, String, Bool, not, Option, none, some, List, [], ◌∷◌, ◌==◌, string_eq,
  Bool-cases,
}
use kl_internal_operator.Kube.{ok}
use kl_internal_operator.Jobs.{
  JobCondition, KubeJob, JobClient, failed_condition, succeeded_condition, completed_condition,
  has_failed, has_succeeded, has_completed,
}

-- The verdict of a condition of the type Failed, if there is one.
abbrev pub not_true : Option JobCondition → Option Bool
not_true none = none
not_true (some c) = some (not (c.status == "True"))

-- Without a condition Failed it is the answer on Complete, and without one Complete that on Failed;
-- with both it is one of the two.
pub Agrees : Option JobCondition → Option Bool → Option Bool → Type 0
Agrees none succeeded completed = completed ≡ succeeded
Agrees (some c) none completed = completed ≡ not_true (some c)
Agrees (some c) (some b) completed = (completed ≡ some b) ⊎ (completed ≡ not_true (some c))

complete_first : (failed : Option JobCondition) (b : Bool) → Agrees failed (some b) (some b)
unfolding Agrees
complete_first none b = refl
complete_first (some c) b = inl refl

failed_first :
    (c : JobCondition) (succeeded : Option Bool) → Agrees (some c) succeeded (not_true (some c))
unfolding Agrees
failed_first c none = refl
failed_first c (some b) = inr refl

conditions-Agrees :
    (cs : List JobCondition)
    → Agrees (failed_condition cs) (succeeded_condition cs) (completed_condition cs)
unfolding failed_condition succeeded_condition completed_condition
conditions-Agrees [] = unfold Agrees in refl
conditions-Agrees (c ∷ cs) = elim (Bool-cases (c.ctype == "Complete")) [
  | inl complete ↦ rw complete (complete_first _ (c.status == "True"))
  | inr other ↦ elim (Bool-cases (c.ctype == "Failed")) [
    | inl failed ↦ rw (other, failed) (failed_first c (succeeded_condition cs))
    | inr unfinished ↦ rw (other, unfinished) (conditions-Agrees cs)
  ]
]

module _ {W T B R : Type 0} (k : JobClient W T B R) where
  -- `HasFailed`, `HasSucceeded` and `HasCompleted` of a job that is found all answer, and agree:
  -- without a condition Failed, `HasCompleted` is `HasSucceeded`; with it and without a condition
  -- Complete, it is whether the failure is not True; with both it is one of these two.
  pub has_completed-Agrees :
      (namespace name : String) (w : W) (j : KubeJob R)
      → k.get w namespace name ≡ ok j
      → (failed : Option JobCondition) × (succeeded : Option Bool) × (completed : Option Bool)
        × (has_failed k namespace name w ≡ ok failed)
        × (has_succeeded k namespace name w ≡ ok succeeded)
        × (has_completed k namespace name w ≡ ok completed)
        × Agrees failed succeeded completed
  unfolding has_failed has_succeeded has_completed
  has_completed-Agrees namespace name w j e = (
    failed_condition j.conditions,
    succeeded_condition j.conditions,
    completed_condition j.conditions,
    rw e refl,
    rw e refl,
    rw e refl,
    conditions-Agrees j.conditions,
  )
