-- ===== src/Jobs.antt =====
-- lib/job-helpers.go: the jobs of a namespace. The typed client of client-go, text/template and the
-- YAML reader are the record `JobClient`; what is logged is left out.
pub mod Watching
pub mod Outcomes
use Prim.Native.String.{◌++◌ as ◌<>◌}
use kl_internal_operator.Base.{
  ℕ, String, Bool, true, false, not, Option, none, some, List, [], ◌∷◌, ◌==◌, string_eq, ltb,
  if◌then◌else◌,
}
use kl_internal_operator.Exec.{Outcome, returned, panicked}
use kl_internal_operator.GoMap.{GoMap}
use kl_internal_operator.Kube.{Error, Result, ok, err, new_error}

pub record JobVars : Type 0 where
  pub name : String
  pub namespace : String
  pub service_account : String
  pub image : String
  pub image_pull_policy : String
  pub command : List String
  pub args : List String
  pub env : GoMap String

-- The parts of batchv1.JobCondition and batchv1.Job that are read, with the rest of a job, `R`. A
-- negative count of pods does not occur.
pub record JobCondition : Type 0 where
  pub ctype : String
  pub status : String

pub record KubeJob (R : Type 0) : Type 0 where
  pub conditions : List JobCondition
  pub succeeded : ℕ
  pub failed : ℕ
  pub rest : R

-- A watch.Event: its type, and its object, `none` if that is no job (a closed channel gives a nil
-- object, which is none either).
pub record WatchEvent (R : Type 0) : Type 0 where
  pub event_type : String
  pub object : Option (KubeJob R)

-- `T` is a parsed template and `B` its text; `get`, `create`, `delete` and `watch` are those of
-- `BatchV1().Jobs(namespace)`, over a world `W`. `watch` gives the events of the channel.
pub record JobClient (W T B R : Type 0) : Type 0 where
  pub parse_files : String → Result T
  pub execute : T → JobVars → Result B
  pub unmarshal_strict : B → Result (KubeJob R)
  pub create : W → String → KubeJob R → Result (KubeJob R) × W
  pub delete : W → String → String → Option Error × W
  pub get : W → String → String → Result (KubeJob R)
  pub new_ef : Error → String → Error
  pub new_e : Error → Error

-- The loop of `Watch` over the events that the channel gives: `none` is a loop that still waits after
-- them.
abbrev pub Watched : Type 0
Watched = Option (Outcome (Result Bool))

abbrev pub answer : Result Bool → Watched
answer r = some (returned r)

-- The branch of a modified job, with what the loop does after it.
unfoldable pub on_modified : {R : Type 0} → KubeJob R → Watched → Watched
on_modified j rest =
    if ltb 0 j.succeeded
    then answer (ok true)
    else if ltb 0 j.failed
    then answer (ok false)
    else rest

-- `Newf` prints the list of its arguments, so the type stands in brackets.
unfoldable pub on_event : {R : Type 0} → String → KubeJob R → Watched → Watched
on_event event_type j rest =
    if event_type == "ADDED"
    then rest
    else if event_type == "DELETED"
    then rest
    else if event_type == "MODIFIED"
    then on_modified j rest
    else answer (err (new_error ("Unknown event type: [" <> (event_type <> "]"))))

unfoldable pub watch_events : {R : Type 0} → List (WatchEvent R) → Watched
watch_events [] = none
watch_events (event ∷ events) = elim event.object [
  | none ↦ some panicked
  | some j ↦ on_event event.event_type j (watch_events events)
]

-- `Watch`, from the answer of the client's call.
unfoldable pub watch : {R : Type 0} → (Error → Error) → Result (List (WatchEvent R)) → Watched
watch new_ef (err e) = answer (err (new_ef e))
watch new_ef (ok events) = watch_events events

-- The loops over the conditions of a job.
unfoldable pub failed_condition : List JobCondition → Option JobCondition
failed_condition [] = none
failed_condition (c ∷ cs) = if c.ctype == "Failed" then some c else failed_condition cs

unfoldable pub succeeded_condition : List JobCondition → Option Bool
succeeded_condition [] = none
succeeded_condition (c ∷ cs) =
    if c.ctype == "Complete" then some (c.status == "True") else succeeded_condition cs

unfoldable pub completed_condition : List JobCondition → Option Bool
completed_condition [] = none
completed_condition (c ∷ cs) =
    if c.ctype == "Complete"
    then some (c.status == "True")
    else if c.ctype == "Failed"
    then some (not (c.status == "True"))
    else completed_condition cs

module _ {W T B R : Type 0} (k : JobClient W T B R) where
  -- `if err != nil { return nil, errors.NewEf(err, text) }`
  abbrev pub or_failed : {A C : Type 0} → Result A → (Error → Error) → (A → Result C) → Result C
  or_failed (err e) wrap f = err (wrap e)
  or_failed (ok a) wrap f = f a

  -- `useTemplate` with the call of the function that it gives.
  unfoldable pub use_template : String → JobVars → Result B
  use_template filename vars =
      or_failed (k.parse_files filename)
        (λ e. k.new_e (k.new_ef e ("could not parse template " <> filename)))
        (λ t.
          or_failed (k.execute t vars) (λ e. k.new_e (k.new_ef e "could not execute template"))
            (λ b. ok b))

  unfoldable pub use_job_template : JobVars → Result (KubeJob R)
  use_job_template vars =
      or_failed (use_template "job-template.tmpl.yml" vars) (λ e. e)
        (λ b.
          or_failed (k.unmarshal_strict b)
            (λ e. k.new_ef e "could not YAML unmarshal template jobVars") (λ j. ok j))

  abbrev pub create_result : Result (KubeJob R) → Result (KubeJob R)
  create_result (ok j) = ok j
  create_result (err e) = err (k.new_ef e "could not create job")

  abbrev pub create_job : String → Result (KubeJob R) → W → Result (KubeJob R) × W
  create_job namespace (err e) w =
      (err (k.new_ef e "could not *batchv1.Job from jobVars template"), w)
  create_job namespace (ok j) w = let (r, w2) = k.create w namespace j in (create_result r, w2)

  unfoldable pub create : String → JobVars → W → Result (KubeJob R) × W
  create namespace vars w = create_job namespace (use_job_template vars) w

  unfoldable pub delete : String → String → W → Option Error × W
  delete namespace name w =
      let (e, w2) = k.delete w namespace name in
      (elim e [ none ↦ none | some e ↦ some (k.new_ef e "could not delete job") ], w2)

  unfoldable pub get : String → String → W → Result (KubeJob R)
  get namespace name w =
      or_failed (k.get w namespace name) (λ e. k.new_ef e "could not get job") (λ j. ok j)

  unfoldable pub has_failed : String → String → W → Result (Option JobCondition)
  has_failed namespace name w =
      or_failed (k.get w namespace name) (λ e. k.new_ef e "could not get job")
        (λ j. ok (failed_condition j.conditions))

  unfoldable pub has_succeeded : String → String → W → Result (Option Bool)
  has_succeeded namespace name w =
      or_failed (k.get w namespace name) (λ e. k.new_ef e "could not get job")
        (λ j. ok (succeeded_condition j.conditions))

  unfoldable pub has_completed : String → String → W → Result (Option Bool)
  has_completed namespace name w =
      or_failed (k.get w namespace name) (λ e. k.new_ef e "could not get job")
        (λ j. ok (completed_condition j.conditions))
