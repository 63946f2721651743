-- ===== src/Controller/Preparing/Writes.antt =====
-- How each write of the common steps changes what a resource still needs.
use kl_internal_operator.Base.{
  ◌<◌, ◌≡◌, refl, String, Bool, true, false, none, List, [], ◌∷◌, string_eq, All, text_beq,
  text_beq_iff, arith, if◌then◌else◌,
}
use kl_internal_operator.GoMap.{GoMap, nil_map, made, entries, get, lookup, delete, insert_all}
use kl_internal_operator.GoMap.Laws.{lookup-without, lookup-insert_all_absent}
use kl_internal_operator.Functions.{map_contains, contains_all}
use kl_internal_operator.Functions.MapLaws.{contains_finalizers_iff}
use kl_internal_operator.Operator.{Check}
use kl_internal_operator.Request.{clear_status_key, restart_key, add_checks, add_finalizers}
use kl_internal_operator.Request.Converging.{
  AddsFinalizer, add_checks_idem, add_finalizers-All, map_contains-insert_all,
}
use kl_internal_operator.Controller.Preparing.{
  total, own_finalizers, Wanted, IsSound, needs_checks, needs_clear, needs_restart, needs_labels,
  needs_finalizers,
}

absent-All :
    (l : List (String × String)) (k : String)
    → lookup l k ≡ none
    → All (λ kv. text_beq k kv.0 ≡ false) l
unfolding lookup
absent-All [] k h = tt
absent-All ((j, v) ∷ l) k h =
    (ground (arith, text_beq_iff j k, text_beq_iff k j), absent-All l k (ground (arith, h)))

get-delete :
    (m : GoMap String) (gone k : String)
    → get (delete m gone) k ≡ (if text_beq gone k then none else get m k)
unfolding lookup
get-delete nil_map gone k = ground arith
get-delete (made l) gone k = lookup-without gone k l

contains_all-delete :
    (m : GoMap String) (gone : String) (l : List (String × String))
    → All (λ kv. text_beq gone kv.0 ≡ false) l
    → contains_all "" (delete m gone) l ≡ contains_all "" m l
unfolding contains_all
contains_all-delete m gone [] h = refl
contains_all-delete m gone ((k, v) ∷ l) h =
    ground (arith, h.0, get-delete m gone k, contains_all-delete m gone l h.1)

-- What is asked of a map that lost a key which is not asked for.
map_contains-delete :
    (m : GoMap String) (gone : String) (l : List (String × String))
    → lookup l gone ≡ none
    → map_contains "" (delete m gone) (made l) ≡ map_contains "" m (made l)
unfolding map_contains
map_contains-delete nil_map gone l h = refl
map_contains-delete (made t) gone l h = contains_all-delete (made t) gone l (absent-All l gone h)

-- One test is met no more, and the others are met as before; of a status that is cleared the checks
-- may be needed anew.
module _ (c k r l f c' k' r' l' f' : Bool) where
  abbrev pub Less : Type 0
  Less = total c' k' r' l' f' < total c k r l f

  pub less_checks : k ≡ true → k' ≡ false → c' ≡ c → r' ≡ r → l' ≡ l → f' ≡ f → Less
  less_checks met now p q s t = rw (met, now, p, q, s, t) (omega arith)

  pub less_restart : r ≡ true → r' ≡ false → c' ≡ c → k' ≡ k → l' ≡ l → f' ≡ f → Less
  less_restart met now p q s t = rw (met, now, p, q, s, t) (omega arith)

  pub less_labels : l ≡ true → l' ≡ false → c' ≡ c → k' ≡ k → r' ≡ r → f' ≡ f → Less
  less_labels met now p q s t = rw (met, now, p, q, s, t) (omega arith)

  pub less_finalizers : f ≡ true → f' ≡ false → c' ≡ c → k' ≡ k → r' ≡ r → l' ≡ l → Less
  less_finalizers met now p q s t = rw (met, now, p, q, s, t) (omega arith)

  pub less_clear : c ≡ true → c' ≡ false → r' ≡ r → l' ≡ l → f' ≡ f → Less
  less_clear met now p q s = rw (met, now, p, q, s) (at_most k k')
    where
      at_most : (a b : Bool) → total false b r l f < total true a r l f
      at_most true true = omega arith
      at_most true false = omega arith
      at_most false true = omega arith
      at_most false false = omega arith

-- What each write does to the tests.
module _ (want : Wanted) where
  pub needs_checks-written :
      (checks checks' : GoMap Check)
      → entries checks' ≡ add_checks want.names (entries checks)
      → needs_checks want.names checks' ≡ false
  unfolding needs_checks
  needs_checks-written checks checks' e =
      ground (arith, e, add_checks_idem want.names (entries checks))

  pub needs_clear-deleted : (m : GoMap String) → needs_clear (delete m clear_status_key) ≡ false
  unfolding needs_clear
  needs_clear-deleted m = rw (get-delete m clear_status_key clear_status_key) refl

  pub needs_restart-cleared :
      (m : GoMap String) → needs_restart (delete m clear_status_key) ≡ needs_restart m
  unfolding needs_restart
  needs_restart-cleared m = rw (get-delete m clear_status_key restart_key) refl

  pub needs_restart-deleted : (m : GoMap String) → needs_restart (delete m restart_key) ≡ false
  unfolding needs_restart
  needs_restart-deleted m = rw (get-delete m restart_key restart_key) refl

  pub needs_clear-restarted :
      (m : GoMap String) → needs_clear (delete m restart_key) ≡ needs_clear m
  unfolding needs_clear
  needs_clear-restarted m = rw (get-delete m restart_key clear_status_key) refl

  pub needs_labels-delete :
      (labels annotations : GoMap String) (gone : String)
      → lookup want.annotations gone ≡ none
      → needs_labels want labels (delete annotations gone) ≡ needs_labels want labels annotations
  unfolding needs_labels
  needs_labels-delete labels annotations gone h =
      rw (map_contains-delete annotations gone want.annotations h) refl

  abbrev pub with_wanted : GoMap String → List (String × String) → GoMap String
  with_wanted m l = made (insert_all l (entries m))

  pub needs_labels-written :
      (labels annotations : GoMap String)
      → IsSound want
      → needs_labels want
          (with_wanted labels want.labels)
          (with_wanted annotations want.annotations)
        ≡ false
  unfolding needs_labels
  needs_labels-written labels annotations sound =
      rw
        (
          map_contains-insert_all want.labels (entries labels) sound.labels-HasDistinctKeys,
          map_contains-insert_all want.annotations (entries annotations)
              sound.annotations-HasDistinctKeys,
        )
        refl

  pub needs_clear-written :
      (m : GoMap String)
      → IsSound want
      → needs_clear (with_wanted m want.annotations) ≡ needs_clear m
  unfolding needs_clear
  needs_clear-written m sound =
      rw
        (lookup-insert_all_absent want.annotations (entries m) clear_status_key
          sound.clear_status-apart)
        refl

  pub needs_restart-written :
      (m : GoMap String)
      → IsSound want
      → needs_restart (with_wanted m want.annotations) ≡ needs_restart m
  unfolding needs_restart
  needs_restart-written m sound =
      rw (lookup-insert_all_absent want.annotations (entries m) restart_key sound.restart-apart)
        refl

pub needs_finalizers-written :
    (add : List String → String → List String) (present : List String)
    → AddsFinalizer add
    → needs_finalizers (add_finalizers add present own_finalizers) ≡ false
unfolding needs_finalizers
needs_finalizers-written add present adds =
    let all = add_finalizers add present own_finalizers in
    rw
      ((contains_finalizers_iff all own_finalizers).1
        (add_finalizers-All add adds present own_finalizers))
      refl
