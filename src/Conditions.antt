-- ===== src/Conditions.antt =====
-- lib/conditions/main.go: `Patch` brings a list of conditions up to date with another one.
-- `meta.FindStatusCondition` is not the operator's code: it is the parameter `find`, and what is
-- relied on is the law `FindsFirst`. `Patch` normalises conditions of `source` in place through the
-- pointers that it finds; the callers drop that slice, and a second look finds the same values.
-- The error result of `Patch` is the constant nil, and is left out.
pub mod PatchLaws
pub mod Fetching
use kl_internal_operator.Base.{
  ℕ, ◌/◌, ◌*◌, String, Bool, true, false, ◌≡◌, ◌||◌, Option, none, some, List, [], ◌∷◌, ◌++◌, ◌==◌,
  ◌!=◌, nat_eq, string_eq, text_beq, if◌then◌else◌,
}
use kl_internal_operator.Base.Integers.{pos}
use kl_internal_operator.Kube.{Condition, condition_true, condition_false}

-- An empty reason counts as "NotSpecified".
abbrev pub specified : String → String
specified r = if r == "" then "NotSpecified" else r

unfoldable pub reasondiff : String → String → Bool
reasondiff r1 r2 = specified r1 != specified r2

-- `time.UnixMilli(t.UnixMilli())`, in nanoseconds
abbrev pub millis : ℕ → ℕ
millis t = t / 1000000 * 1000000

-- The condition as `Patch` stores it at the time `x`.
abbrev pub normalise : ℕ → Condition → Condition
normalise x c = record c {
  last_transition_time = (if c.last_transition_time == 0 then x else c.last_transition_time);
  reason = specified c.reason;
}

abbrev pub differs : Condition → Condition → Bool
differs s c = s.status != c.status || (reasondiff s.reason c.reason || s.message != c.message)

module _ (find : List Condition → String → Option Condition) where
  -- One round of the first loop: what replaces `c`, and whether that is an update.
  unfoldable pub patch_one : ℕ → List Condition → Condition → List Condition × Bool
  patch_one x source c = elim (find source c.ctype) [
    | none ↦ ([], true)
    | some s ↦ if differs s c then (normalise x s ∷ [], true) else (c ∷ [], false)
  ]

  unfoldable pub patch_dest : ℕ → List Condition → List Condition → List Condition × Bool
  patch_dest x source [] = ([], false)
  patch_dest x source (c ∷ dest) =
      let (one, changed) = patch_one x source c in
      let (rest, updated) = patch_dest x source dest in (one ++ rest, changed || updated)

  -- The second loop: the conditions that `dest` lacks are appended.
  unfoldable pub patch_new : ℕ → List Condition → List Condition → List Condition × Bool
  patch_new x dest [] = ([], false)
  patch_new x dest (c ∷ source) =
      let (rest, updated) = patch_new x dest source in
      elim (find dest c.ctype) [ none ↦ (normalise x c ∷ rest, true) | some _ ↦ (rest, updated) ]

  unfoldable pub patch : ℕ → List Condition → List Condition → List Condition × Bool
  patch now dest source =
      let (kept, changed) = patch_dest (millis now) source dest in
      let (added, more) = patch_new (millis now) dest source in (kept ++ added, changed || more)

  -- What is relied on of `meta.FindStatusCondition`: it returns the first condition of the type.
  pub record FindsFirst : Type 0 where
    pub find-nil : (t : String) → find [] t ≡ none
    pub find-cons :
        (c : Condition) (cs : List Condition) (t : String)
        → find (c ∷ cs) t ≡ (if text_beq c.ctype t then some c else find cs t)

-- `conditions.New`; the code appends "" to the messages and takes the first.
unfoldable pub new : String → Bool → String → List String → Condition
new ctype status reason msg = record {
  ctype = ctype;
  status = (if status then condition_true else condition_false);
  observed_generation = pos 0;
  last_transition_time = 0;
  reason = reason;
  message = elim msg [ [] ↦ "" | m ∷ _ ↦ m ];
}

-- A search that meets the law.
abbrev pub find_first : List Condition → String → Option Condition
find_first [] t = none
find_first (c ∷ cs) t = if text_beq c.ctype t then some c else find_first cs t
