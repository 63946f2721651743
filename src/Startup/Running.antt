-- ===== src/Startup/Running.antt =====
-- What has happened when the manager of main.go runs.
use kl_internal_operator.Base.{◌≡◌, ◌≢◌, refl, ap, Option, none, some, List, [], ◌∷◌, ◌++◌}
use kl_internal_operator.Kube.{Error}
use kl_internal_operator.Startup.{
  Controller, Machine, Ending, went_on, exited, Run, checked, set_up_all, enabled, comm_controllers,
  infra_controllers, manager_options, start_manager, run_manager, after_env, main,
}

module _ {W : Type 0} (m : Machine W) where
  -- The controllers were set up from the world `w` to the world `w2`, each without an error.
  pub SetUp : List Controller → W → W → Type 0
  SetUp [] w w2 = w ≡ w2
  SetUp (c ∷ cs) w w2 = ((m.set_up w c).0 ≡ none) × SetUp cs (m.set_up w c).1 w2

  checked-went_on :
      (failure : Ending) (call : Option Error × W) (rest : Run W) (w2 : W)
      → failure ≢ went_on
      → checked failure call rest ≡ (went_on, w2)
      → (call.0 ≡ none) × (rest call.1 ≡ (went_on, w2))
  checked-went_on failure (none, w) rest w2 bad h = (refl, h)
  checked-went_on failure (some e, w) rest w2 bad h = absurd (bad (ap (λ r. r.0) h))

  set_up_all-SetUp :
      (cs : List Controller) (rest : Run W) (w w2 : W)
      → set_up_all m cs rest w ≡ (went_on, w2)
      → (w1 : W) × SetUp cs w w1 × (rest w1 ≡ (went_on, w2))
  unfolding set_up_all SetUp
  set_up_all-SetUp [] rest w w2 h = (w, refl, h)
  set_up_all-SetUp (c ∷ cs) rest w w2 h =
      let (done, more) =
        checked-went_on exited (m.set_up w c) (set_up_all m cs rest) w2 (λ e. absurd (cc e)) h in
      let (w1, all, last) = set_up_all-SetUp cs rest (m.set_up w c).1 w2 more in
      (w1, (done, all), last)

  SetUp-append :
      (cs ds : List Controller) (w w1 w2 : W)
      → SetUp cs w w1
      → SetUp ds w1 w2
      → SetUp (cs ++ ds) w w2
  unfolding SetUp
  SetUp-append [] ds w w1 w2 a b = rw a b
  SetUp-append (c ∷ cs) ds w w1 w2 a b = (a.0, SetUp-append cs ds (m.set_up w c).1 w1 w2 a.1 b)

  -- The manager was made, and the enabled controllers set up in order, before it started in `w1`.
  abbrev pub Started : W → W → Type 0
  Started w w2 =
      (w1 : W) × ((m.new_manager w (manager_options m)).0 ≡ none)
      × SetUp (enabled m "COMM" (comm_controllers m) ++ enabled m "INFRA" (infra_controllers m))
          (m.new_manager w (manager_options m)).1 w1
      × (start_manager m w1 ≡ (went_on, w2))

  after_env-Started :
      (e : Option Error) (w w2 : W) → after_env m e w ≡ (went_on, w2) → (e ≡ none) × Started w w2
  unfolding after_env run_manager
  after_env-Started (some e) w w2 h = absurd (cc h)
  after_env-Started none w w2 h =
      let (made_manager, setting_up) =
        checked-went_on exited (m.new_manager w (manager_options m)) _ w2 (λ e. absurd (cc e)) h in
      let (w3, comm, more) = set_up_all-SetUp _ _ _ w2 setting_up in
      let (w1, infra, last) = set_up_all-SetUp _ _ w3 w2 more in
      (refl, (w1, made_manager, SetUp-append _ _ _ w3 w1 comm infra, last))

  -- If `main` goes on to its end, then the environment was set, the manager was made, and the
  -- controllers, those of COMM and then those of INFRA where the variable is "true", were set up in
  -- order, each without an error, before the checks were added and the manager started.
  pub main-Started : (w w2 : W) → main m w ≡ (went_on, w2) → (m.set_env ≡ none) × Started w w2
  unfolding main
  main-Started w w2 h = after_env-Started m.set_env w w2 h
