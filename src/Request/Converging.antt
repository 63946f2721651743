-- ===== src/Request/Converging.antt =====
-- The `Ensure...` steps run twice, with a server that keeps what it is sent.
use kl_internal_operator.Base.{
  if◌then◌else◌, ◌≡◌, ◌≢◌, refl, sym, String, Bool, true, false, Option, none, some, List, [], ◌∷◌,
  length, All, Any, inl, inr, All-map, arith, Option-cases, string_eq, text_beq_iff,
}
use mathlib.Core.Path.{subst}
use kl_internal_operator.GoMap.{GoMap, made, entries, get, lookup, insert, insert_all}
use kl_internal_operator.GoMap.Laws.{lookup-insert}
use kl_internal_operator.Functions.{contains_finalizers, map_contains}
use kl_internal_operator.Functions.MapLaws.{
  contains_finalizers_iff, map_contains_iff, HasDistinctKeys, lookup-insert_all, Agrees,
}
use kl_internal_operator.StepResult.{should_proceed, new, continue_with}
use kl_internal_operator.Operator.{Check, zero_check, Object}
use kl_internal_operator.Request.{
  Client, State, add_checks, add_finalizers, ensure_checks, write_checks, ensure_finalizers,
  write_finalizers, ensure_labels_and_annotations,
}
use kl_internal_operator.Request.Stopping.{Proceeds, add_checks_present}

-- The server keeps the object as it is sent, and takes it.
pub record Keeps {W S V B : Type 0} (c : Client W S V B) : Type 0 where
  pub update-Keeps : (w : W) (o : Object S V B) → ((c.update w o).0 ≡ none) × ((c.update w o).1 ≡ o)
  pub update_status-Keeps :
      (w : W) (o : Object S V B) → ((c.update_status w o).0 ≡ none) × ((c.update_status w o).1 ≡ o)

-- `stored` is the resource as a world has it. An update that is answered without an error stores all
-- but the status, an update of the status the status alone, and kubectl, which only restarts
-- deployments and stateful sets, leaves the resource.
pub record Stores {W S V B : Type 0} (c : Client W S V B) (stored : W → Object S V B) : Type 0 where
  pub update-Stores :
      (w : W) (o : Object S V B)
      → (c.update w o).0 ≡ none
      → stored (c.update w o).2 ≡ record o { status = (stored w).status }
  pub update_status-Stores :
      (w : W) (o : Object S V B)
      → (c.update_status w o).0 ≡ none
      → stored (c.update_status w o).2 ≡ record (stored w) { status = o.status }
  pub kubectl-Stores : (w : W) (args : List String) → stored (c.kubectl w args).1 ≡ stored w

-- What is relied on of controllerutil.AddFinalizer: the finalizer is there, and none is lost.
abbrev pub AddsFinalizer : (List String → String → List String) → Type 0
AddsFinalizer add =
    (fs : List String) (f g : String) → Any (λ h. h ≡ g) (f ∷ fs) → Any (λ h. h ≡ g) (add fs f)

add_checks_keeps :
    (names : List String) (l : List (String × Check)) (n : String)
    → lookup l n ≢ none
    → lookup (add_checks names l) n ≢ none
unfolding add_checks
add_checks_keeps [] l n h = h
add_checks_keeps (m ∷ names) l n h = elim (Option-cases (lookup l m)) [
  | inl gone ↦ ground (
    arith,
    gone,
    h,
    lookup-insert m n zero_check l,
    add_checks_keeps names (insert m zero_check l) n,
  )
  | inr (c, there) ↦ ground (arith, there, h, add_checks_keeps names l n)
]

abbrev is_some : {A : Type 0} → Option A → Bool
is_some none = false
is_some (some a) = true

add_checks-All :
    (names : List String) (l : List (String × Check))
    → All (λ n. lookup (add_checks names l) n ≢ none) names
unfolding add_checks
add_checks-All [] l = tt
add_checks-All (m ∷ names) l =
    let l' = if is_some (lookup l m) then l else insert m zero_check l in
    let same : add_checks (m ∷ names) l ≡ add_checks names l' = ground arith in
    let there : lookup l' m ≢ none =
      ground (arith, lookup-insert m m zero_check l, text_beq_iff m m) in
    subst (λ x. All (λ n. lookup x n ≢ none) (m ∷ names)) (sym same)
      (add_checks_keeps names l' m there, add_checks-All names l')

add_checks_id :
    (names : List String) (l : List (String × Check))
    → All (λ n. lookup l n ≢ none) names
    → add_checks names l ≡ l
unfolding add_checks
add_checks_id [] l h = refl
add_checks_id (m ∷ names) l h = ground (arith, h.0, add_checks_id names l h.1)

pub add_checks_idem :
    (names : List String) (l : List (String × Check))
    → add_checks names (add_checks names l) ≡ add_checks names l
add_checks_idem names l = add_checks_id names (add_checks names l) (add_checks-All names l)

add_checks_same :
    (names : List String) (l : List (String × Check))
    → length (add_checks names l) ≡ length l
    → add_checks names l ≡ l
add_checks_same names l h = add_checks_id names l (add_checks_present names l h)

module _ {W S V B L : Type 0} (c : Client W S V B) where
  ensure_checks_passes :
      (names : List String) (s : State W S V B L)
      → add_checks names (entries s.object.status.checks) ≡ entries s.object.status.checks
      → Proceeds (ensure_checks c names s).0
  unfolding ensure_checks should_proceed new continue_with
  ensure_checks_passes names s h = ground (arith, h)

module _ {W S V B L : Type 0} (c : Client W S V B) (keeps : Keeps c) where
  pub entries-ensure_checks :
      (names : List String) (s : State W S V B L)
      → entries (ensure_checks c names s).1.object.status.checks
        ≡ add_checks names (entries s.object.status.checks)
  unfolding ensure_checks write_checks
  entries-ensure_checks names s =
      let old = entries s.object.status.checks in
      let wrote = record s.object {
        status = record s.object.status { checks = made (add_checks names old) };
      } in
      ground (arith, keeps.update_status-Keeps s.world wrote, add_checks_same names old)

  -- After `EnsureChecks`, whether it wrote or not, `EnsureChecks` for the same names proceeds, if
  -- the server takes the status and keeps it as it is sent.
  pub ensure_checks_again :
      (names : List String) (s : State W S V B L)
      → Proceeds (ensure_checks c names (ensure_checks c names s).1).0
  ensure_checks_again names s =
      ensure_checks_passes c names (ensure_checks c names s).1 (
        rw (entries-ensure_checks names s) (add_checks_idem names (entries s.object.status.checks)))

add_finalizers_keeps :
    (add : List String → String → List String) (adds : AddsFinalizer add) (present fs : List String)
    (g : String)
    → Any (λ h. h ≡ g) present
    → Any (λ h. h ≡ g) (add_finalizers add present fs)
unfolding add_finalizers
add_finalizers_keeps add adds present [] g h = h
add_finalizers_keeps add adds present (f ∷ fs) g h =
    add_finalizers_keeps add adds (add present f) fs g (adds present f g (inr h))

pub add_finalizers-All :
    (add : List String → String → List String) (adds : AddsFinalizer add) (present fs : List String)
    → All (λ f. Any (λ h. h ≡ f) (add_finalizers add present fs)) fs
unfolding add_finalizers
add_finalizers-All add adds present [] = tt
add_finalizers-All add adds present (f ∷ fs) = (
  add_finalizers_keeps add adds (add present f) fs f (adds present f f (inl refl)),
  add_finalizers-All add adds (add present f) fs,
)

module _ {W S V B L : Type 0} (c : Client W S V B) (keeps : Keeps c) where
  -- After `EnsureFinalizers`, whether it wrote or not, `EnsureFinalizers` for the same finalizers
  -- proceeds, if the server takes the object and keeps it as it is sent, and a finalizer that is
  -- added is there afterwards with those that were.
  pub ensure_finalizers_again :
      (finalizers : List String) (s : State W S V B L)
      → AddsFinalizer c.add_finalizer
      → Proceeds (ensure_finalizers c finalizers (ensure_finalizers c finalizers s).1).0
  unfolding ensure_finalizers write_finalizers new should_proceed continue_with
  ensure_finalizers_again finalizers s adds =
      let present = s.object.metadata.finalizers in
      let all = add_finalizers c.add_finalizer present finalizers in
      let wrote = record s.object { metadata = record s.object.metadata { finalizers = all } } in
      let there : contains_finalizers all finalizers ≡ true =
        (contains_finalizers_iff all finalizers).1
          (add_finalizers-All c.add_finalizer adds present finalizers) in
      ground (arith, keeps.update-Keeps s.world wrote, there)

found-Agrees :
    (target : GoMap String) (l : List (String × String))
    → All (λ kv. get target kv.0 ≡ some kv.1) l
    → Agrees "" target l
found-Agrees target [] h = tt
found-Agrees target ((k, v) ∷ l) h = (ground (arith, h.0), found-Agrees target l h.1)

HasDistinctKeys-found :
    (l : List (String × String)) → HasDistinctKeys l → All (λ kv. lookup l kv.0 ≡ some kv.1) l
unfolding lookup
HasDistinctKeys-found [] h = tt
HasDistinctKeys-found ((k, v) ∷ l) h = (
  ground (arith, text_beq_iff k k),
  All-map _ _ l (λ kv e. ground (arith, e, h.0, text_beq_iff k kv.0)) (HasDistinctKeys-found l h.1),
)

pub map_contains-insert_all :
    (src l : List (String × String))
    → HasDistinctKeys src
    → map_contains "" (made (insert_all src l)) (made src) ≡ true
map_contains-insert_all src l h = (map_contains_iff "" (made (insert_all src l)) src).0.1 (
    found-Agrees (made (insert_all src l)) src (
      All-map _ _ src (λ kv e. ground (arith, e, lookup-insert_all src l kv.0 h))
        (HasDistinctKeys-found src h)))

-- The labels and annotations that a resource is to have are maps that are made, and do not
-- depend on the labels and annotations that it has.
pub record EnsuresApart {W S V B : Type 0} (c : Client W S V B) (o : Object S V B) : Type 0 where
  pub label_list : List (String × String)
  pub annotation_list : List (String × String)
  pub labels-HasDistinctKeys : HasDistinctKeys label_list
  pub annotations-HasDistinctKeys : HasDistinctKeys annotation_list
  pub ensured_labels-apart :
      (l a : GoMap String)
      → c.ensured_labels (record o { metadata = record o.metadata { labels = l; annotations = a } })
        ≡ made label_list
  pub ensured_annotations-apart :
      (l a : GoMap String)
      → c.ensured_annotations
          (record o { metadata = record o.metadata { labels = l; annotations = a } })
        ≡ made annotation_list

module _ {W S V B L : Type 0} (c : Client W S V B) (keeps : Keeps c) where
  -- After `EnsureLabelsAndAnnotations`, whether it wrote or not, the same step proceeds, if the
  -- server takes the object and keeps it as it is sent, and what is to be ensured are maps that are
  -- made and do not depend on the labels and annotations of the resource.
  pub ensure_labels_and_annotations_again :
      (s : State W S V B L)
      → EnsuresApart c s.object
      → Proceeds (ensure_labels_and_annotations c (ensure_labels_and_annotations c s).1).0
  unfolding ensure_labels_and_annotations new should_proceed continue_with
  ensure_labels_and_annotations_again s apart =
      let m = s.object.metadata in
      let labels = made (insert_all apart.label_list (entries m.labels)) in
      let annotations = made (insert_all apart.annotation_list (entries m.annotations)) in
      let wrote = record s.object {
        metadata = record m { labels = labels; annotations = annotations };
      } in
      ground (
        arith,
        keeps.update-Keeps s.world wrote,
        apart.ensured_labels-apart m.labels m.annotations,
        apart.ensured_annotations-apart m.labels m.annotations,
        apart.ensured_labels-apart labels annotations,
        apart.ensured_annotations-apart labels annotations,
        map_contains-insert_all apart.label_list (entries m.labels) apart.labels-HasDistinctKeys,
        map_contains-insert_all apart.annotation_list (entries m.annotations)
            apart.annotations-HasDistinctKeys,
      )
