-- ===== src/StatusConditions/Marking.antt =====
-- What the marks leave in the list of the conditions.
use kl_internal_operator.Base.{◌≡◌, String, some, List}
use kl_internal_operator.Kube.{Condition, condition_false}
use kl_internal_operator.StatusConditions.{
  Meta, StatusConditions, condition_ready, build, built, set_ready, mark_ready,
}

-- What is relied on of meta.SetStatusCondition: the condition that was set is found with its status.
abbrev pub FindsSet : Meta → Type 0
FindsSet meta =
    (l : List Condition) (c : Condition)
    → (found : Condition) × (meta.find_status_condition (meta.set_status_condition l c) c.ctype
        ≡ some found)
      × (found.status ≡ c.status)

module _ (meta : Meta) (law : FindsSet meta) where
  -- The condition Ready is False after `MarkReady` of `statusConditions`, whatever it was before.
  pub mark_ready_lem :
      (msg : String) (reason : List String) (s : StatusConditions)
      → (found : Condition) × (meta.find_status_condition
            (mark_ready meta msg reason s).conditions
            condition_ready
          ≡ some found)
        × (found.status ≡ condition_false)
  unfolding mark_ready set_ready build built
  mark_ready_lem msg reason s = law s.conditions _
