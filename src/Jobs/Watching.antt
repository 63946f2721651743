-- ===== src/Jobs/Watching.antt =====
-- When `Watch` of lib/job-helpers.go answers.
use kl_internal_operator.Base.{
  ◌<◌, ◌≡◌, ◌↔◌, ◌⊎◌, inl, inr, refl, String, Bool, true, false, Option, none, some, List, [], ◌∷◌,
  arith, text_beq_iff, string_eq,
}
use kl_internal_operator.Exec.{panicked}
use kl_internal_operator.Kube.{ok}
use kl_internal_operator.Jobs.{
  KubeJob, WatchEvent, Watched, answer, watch_events, on_event, on_modified,
}

module _ {R : Type 0} where
  -- A modification tells that the job has succeeded, or else failed.
  abbrev pub Tells : Bool → String → KubeJob R → Type 0
  Tells true event_type j = (event_type ≡ "MODIFIED") × (0 < j.succeeded)
  Tells false event_type j = (event_type ≡ "MODIFIED") × (j.succeeded ≡ 0) × (0 < j.failed)

  -- The job was added or deleted, or modified while it runs.
  abbrev pub IsQuiet : String → KubeJob R → Type 0
  IsQuiet event_type j =
      (event_type ≡ "ADDED")
      ⊎ (event_type ≡ "DELETED")
      ⊎ ((event_type ≡ "MODIFIED") × (j.succeeded ≡ 0) × (j.failed ≡ 0))

  -- Some event tells `b` of the job, and all those before it are quiet.
  abbrev pub Ends : Bool → List (WatchEvent R) → Type 0
  Ends b [] = ⊥
  Ends b (event ∷ events) =
      (j : KubeJob R) × (event.object ≡ some j)
      × (Tells b event.event_type j ⊎ (IsQuiet event.event_type j × Ends b events))

  on_event_iff :
      (b : Bool) (event_type : String) (j : KubeJob R) (rest : Watched)
      → (on_event event_type j rest ≡ answer (ok b))
        ↔ (Tells b event_type j ⊎ (IsQuiet event_type j × (rest ≡ answer (ok b))))
  unfolding on_event on_modified
  on_event_iff true event_type j rest =
      let added = text_beq_iff event_type "ADDED" in
      let deleted = text_beq_iff event_type "DELETED" in
      let modified = text_beq_iff event_type "MODIFIED" in
      (
        λ h. ground (arith, h, added, deleted, modified),
        λ h. elim h [
          | inl (e, some_succeeded) ↦ rw e (ground (arith, some_succeeded))
          | inr q ↦ ground (arith, q, added, deleted, modified)
        ],
      )
  on_event_iff false event_type j rest =
      let added = text_beq_iff event_type "ADDED" in
      let deleted = text_beq_iff event_type "DELETED" in
      let modified = text_beq_iff event_type "MODIFIED" in
      (
        λ h. ground (arith, h, added, deleted, modified),
        λ h. elim h [
          | inl (e, none_yet, some_failed) ↦ rw e (ground (arith, none_yet, some_failed))
          | inr q ↦ ground (arith, q, added, deleted, modified)
        ],
      )

  by_object :
      (b : Bool) (event_type : String) (object : Option (KubeJob R)) (rest : Watched)
      (Rest : Type 0)
      → ((rest ≡ answer (ok b)) ↔ Rest)
      → ((elim object as (λ _. Watched) [
        | none ↦ some panicked
        | some j ↦ on_event event_type j rest
      ]
            ≡ answer (ok b))
          ↔ ((j : KubeJob R) × (object ≡ some j)
              × (Tells b event_type j ⊎ (IsQuiet event_type j × Rest))))
  by_object b event_type none rest Rest ih = (λ h. cc, λ h. cc)
  by_object b event_type (some j) rest Rest ih =
      let here = on_event_iff b event_type j rest in
      (
        λ h. (j, refl, elim (here.0 h) [ inl t ↦ inl t | inr q ↦ inr (q.0, ih.0 q.1) ]),
        λ h.
            let same : h.0 ≡ j = cc (h.1) in
            here.1
              (elim h.2 [ inl t ↦ inl (rw same at t) | inr q ↦ inr (rw same at q.0, ih.1 q.1) ]),
      )

  -- Over the events of its channel, `Watch` answers that the job succeeded (or that it failed)
  -- exactly when there is an event that modifies the job and has some pod that succeeded (or none,
  -- and some that failed), and every event before it adds or deletes the job, or modifies it with
  -- no pod of either kind.
  pub watch_events_iff :
      (b : Bool) (events : List (WatchEvent R))
      → (watch_events events ≡ answer (ok b)) ↔ Ends b events
  unfolding watch_events
  watch_events_iff b [] = (λ h. cc, λ h. absurd h)
  watch_events_iff b (event ∷ events) =
      by_object b event.event_type event.object (watch_events events) (Ends b events)
        (watch_events_iff b events)
