-- ===== src/Controller/Preparing/Chains.antt =====
-- The chain of the common steps: either it lets the run go on as it found the state, or it leaves
-- less to be done.
use kl_internal_operator.Base.{
  ◌<◌, ◌≤◌, ◌≡◌, refl, ap, ◌∙◌, ◌⊎◌, inl, inr, Bool, true, false, arith,
}
use kl_internal_operator.Exec.{Exec, Outcome, returned, panicked}
use kl_internal_operator.GoMap.{made}
use kl_internal_operator.StepResult.{Step, should_proceed, then_proceed, continue_with, new}
use kl_internal_operator.Operator.{Object}
use kl_internal_operator.Request.{
  Client, State, proceed, clear_status_if_annotated, restart_if_annotated,
  ensure_labels_and_annotations, ensure_finalizers,
}
use kl_internal_operator.Request.Stopping.{Stops}
use kl_internal_operator.Request.Converging.{Keeps, Stores, AddsFinalizer}
use kl_internal_operator.Controller.{Response}
use kl_internal_operator.Controller.Preparing.{
  bit, total, own_finalizers, Wanted, IsSound, Kept, rounds_left,
}
use kl_internal_operator.Controller.Preparing.Synced.{
  Synced, clear_status_if_annotated-Synced, restart_if_annotated-Synced, ensure_labels-Synced,
  ensure_finalizers-Synced,
}
use kl_internal_operator.Controller.Preparing.Common.{Advances}
use kl_internal_operator.Controller.Preparing.Checks.{clear_status_if_annotated-Advances}
use kl_internal_operator.Controller.Preparing.Restart.{restart_if_annotated-Advances}
use kl_internal_operator.Controller.Preparing.Metadata.{
  ensure_labels-Advances, ensure_finalizers-Advances,
}

module _ {S : Type 0} where
  stopped_state :
      (m : Exec S Step) (body : Exec S Response) (s s' : S) (o : Outcome Step)
      → m s ≡ (o, s')
      → Stops o
      → (then_proceed m body s).1 ≡ s'
  unfolding then_proceed
  stopped_state m body s s' (returned st) e stops = rw (e, stops) refl
  stopped_state m body s s' panicked e stops = absurd stops

  passed_on :
      (m : Exec S Step) (body : Exec S Response) (s : S)
      → m s ≡ (returned proceed, s)
      → then_proceed m body s ≡ body s
  unfolding then_proceed should_proceed continue_with new
  passed_on m body s e = rw e refl

pub Kept-trans : {S V B : Type 0} (o o' o'' : Object S V B) → Kept o o' → Kept o' o'' → Kept o o''
Kept-trans o o' o'' a b = record {
  same_spec = b.same_spec ∙ a.same_spec;
  same_name = b.same_name ∙ a.same_name;
  same_deletion = b.same_deletion ∙ a.same_deletion;
}

pub Kept-refl : {S V B : Type 0} (o : Object S V B) → Kept o o
Kept-refl o = record { same_spec = refl; same_name = refl; same_deletion = refl }

bit-le : (b : Bool) → bit b ≤ 1
bit-le true = omega arith
bit-le false = omega arith

pub total-le :
    (clear checks restart labels finalizers : Bool)
    → total clear checks restart labels finalizers ≤ 6
total-le clear checks restart labels finalizers =
    omega (arith, bit-le clear, bit-le checks, bit-le restart, bit-le labels, bit-le finalizers)

-- What is relied on of the controller: the labels and annotations to be ensured are the wanted ones
-- for every object with the spec and the name of this one.
abbrev pub Fits : {W S V B : Type 0} → Client W S V B → Wanted → Object S V B → Type 0
Fits c want o =
    (o' : Object _ _ _)
    → Kept o o'
    → (c.ensured_labels o' ≡ made want.labels) × (c.ensured_annotations o' ≡ made want.annotations)

pub Fits-Kept :
    {W S V B : Type 0} (c : Client W S V B) (want : Wanted) (o o' : Object S V B)
    → Fits c want o
    → Kept o o'
    → Fits c want o'
Fits-Kept c want o o' fits kept o'' kept' = fits o'' (Kept-trans o o' o'' kept kept')

module _ {W S V B L : Type 0} (c : Client W S V B) (stored : W → Object S V B) (want : Wanted) where
  -- The body is run in the same state, or whatever it is, the server has a resource afterwards that
  -- needs less.
  unfoldable pub Chain :
      (Exec (State W S V B L) Response → Exec (State W S V B L) Response) → State W S V B L → Type 0
  Chain f s =
      ((body : Exec (State W S V B L) Response) → f body s ≡ body s)
      ⊎ ((s' : State W S V B L) × ((body : Exec (State W S V B L) Response) → (f body s).1 ≡ s')
          × Kept s.object (stored s'.world)
          × (rounds_left want (stored s'.world) < rounds_left want s.object))

module _ {W S V B L : Type 0} (c : Client W S V B) (keeps : Keeps c) {stored : W → Object S V B}
    (stores : Stores c stored) (want : Wanted) where
  pub then_proceed-Chain :
      (m : Exec (State W S V B L) Step) (s : State W S V B L)
      → Advances c keeps want m s
      → Synced c keeps stores (m s).1
      → Chain c stored want (then_proceed m) s
  unfolding Chain
  then_proceed-Chain m s (inl e) synced = inl (λ body. passed_on m body s e)
  then_proceed-Chain m s (inr (stops, kept, less)) synced = inr (
    (m s).1,
    λ body. stopped_state m body s (m s).1 (m s).0 refl stops,
    rw synced kept,
    rw synced less,
  )

  compose-Chain :
      (f g : Exec (State W S V B L) Response → Exec (State W S V B L) Response)
      (s : State W S V B L)
      → Chain c stored want f s
      → Chain c stored want g s
      → Chain c stored want (λ body. f (g body)) s
  unfolding Chain
  compose-Chain f g s (inr (s', e, kept, less)) _ = inr (s', λ body. e (g body), kept, less)
  compose-Chain f g s (inl e) (inl e') = inl (λ body. e (g body) ∙ e' body)
  compose-Chain f g s (inl e) (inr (s', e', kept, less)) =
      inr (s', λ body. ap (λ r. r.1) (e (g body)) ∙ e' body, kept, less)

  module _ (adds : AddsFinalizer c.add_finalizer) (sound : IsSound want) where
    pub reconcile_live-Chain :
        (s : State W S V B L)
        → Synced c keeps stores s
        → Fits c want s.object
        → Chain c stored want
            (λ body. then_proceed (clear_status_if_annotated c) (
              then_proceed (restart_if_annotated c) (
                then_proceed
                  (ensure_labels_and_annotations c)
                  (then_proceed (ensure_finalizers c own_finalizers) body))))
            s
    reconcile_live-Chain s synced fits =
        let (labels, annotations) = fits s.object (Kept-refl s.object) in
        compose-Chain (then_proceed (clear_status_if_annotated c)) _ s
          (then_proceed-Chain _ s (clear_status_if_annotated-Advances c keeps want s sound)
            (clear_status_if_annotated-Synced c keeps stores s synced))
          (compose-Chain (then_proceed (restart_if_annotated c)) _ s
            (then_proceed-Chain _ s (restart_if_annotated-Advances c keeps want s sound)
              (restart_if_annotated-Synced c keeps stores s synced))
            (compose-Chain (then_proceed (ensure_labels_and_annotations c)) _ s
              (then_proceed-Chain _ s
                (ensure_labels-Advances c keeps want s sound labels annotations)
                (ensure_labels-Synced c keeps stores s synced))
              (then_proceed-Chain _ s (ensure_finalizers-Advances c keeps want s adds)
                (ensure_finalizers-Synced c keeps stores own_finalizers s synced))))
