-- ===== src/Agent/Counting.antt =====
-- How often the agent runs kubectl and commits.
use kl_internal_operator.Base.{
  ℕ, zero, suc, ◌+◌, ◌*◌, ◌≡◌, refl, String, Bool, false, Option, none, some, List, [], ◌∷◌, arith,
  ◌||◌, ◌∙◌,
}
use kl_internal_operator.Kube.{Error, Result, ok, err}
use kl_internal_operator.StepResult.{is_nil}
use kl_internal_operator.Agent.{
  Message, Outside, run_yaml, run_json, process_message, attempts, handle_message, read_messages,
  max_retries,
}

-- Counters of the world: of the runs of kubectl, and of the commits.
pub record Counters {W P B : Type 0} (k : Outside W P B) : Type 0 where
  pub runs : W → ℕ
  pub commits : W → ℕ
  pub run-runs : (w : W) (args : List String) (b : B) → runs (k.run w args b).1 ≡ suc (runs w)
  pub run-commits : (w : W) (args : List String) (b : B) → commits (k.run w args b).1 ≡ commits w
  pub commit-runs : (w : W) (b : B) → runs (k.commit_message w b) ≡ runs w
  pub commit-commits : (w : W) (b : B) → commits (k.commit_message w b) ≡ suc (commits w)

-- The messages among the reads.
abbrev pub delivered : {B : Type 0} → List (Option B × Option Error) → ℕ
delivered [] = 0
delivered ((none, e) ∷ reads) = delivered reads
delivered ((some value, e) ∷ reads) = suc (delivered reads)

times : ℕ → ℕ → ℕ
times zero m = 0
times (suc n) m = m + times n m

times_zero : (n : ℕ) → times n 0 ≡ 0
unfolding times
times_zero zero = refl
times_zero (suc n) = let rest = times_zero n in omega (arith, rest)

module _ {W P B : Type 0} (k : Outside W P B) where
  abbrev encodes_yaml : Result B → ℕ
  encodes_yaml (err e) = 0
  encodes_yaml (ok yb) = 1

  abbrev encodes_json : Result B → ℕ
  encodes_json (err e) = 0
  encodes_json (ok jb) = encodes_yaml (k.json_to_yaml jb)

  abbrev is_runnable : Option (Message P) → ℕ
  is_runnable none = 0
  is_runnable (some j) = encodes_json (k.marshal j.payload)

  -- The messages among the reads that decode and whose payload can be written as YAML.
  abbrev pub runnable : List (Option B × Option Error) → ℕ
  runnable [] = 0
  runnable ((none, e) ∷ reads) = runnable reads
  runnable ((some value, e) ∷ reads) = is_runnable (k.unmarshal value) + runnable reads

module _ {W P B : Type 0} (k : Outside W P B) (c : Counters k) where
  Counted : ℕ → W → W → Type 0
  Counted n w w2 = (c.runs w2 ≡ n + c.runs w) × (c.commits w2 ≡ c.commits w)

  run_yaml-Counted :
      (action : String) (yaml : Result B) (w : W)
      → Counted (encodes_yaml k yaml) w (run_yaml k action yaml w).1
  unfolding Counted
  run_yaml-Counted action (err e) w = (omega arith, refl)
  run_yaml-Counted action (ok yb) w =
      let h = c.run-runs w ("kubectl" ∷ action ∷ "-f" ∷ "-" ∷ []) yb in
      (omega (arith, h), c.run-commits w _ yb)

  run_json-Counted :
      (action : String) (json : Result B) (w : W)
      → Counted (encodes_json k json) w (run_json k action json w).1
  unfolding Counted
  run_json-Counted action (err e) w = (omega arith, refl)
  run_json-Counted action (ok jb) w = run_yaml-Counted action (k.json_to_yaml jb) w

  attempts-Counted :
      (n : ℕ) (d : Option (Message P)) (value : B) (processed : Bool) (w : W)
      → k.unmarshal value ≡ d
      → Counted (times n (is_runnable k d)) w (attempts k n value processed w).1
  unfolding Counted times attempts process_message
  attempts-Counted zero d value processed w e = (omega arith, refl)
  attempts-Counted (suc n) none value processed w e =
      rw (e, attempts) (ground (arith, times_zero n), refl)
  attempts-Counted (suc n) (some j) value processed w e =
      let one = run_json k j.action (k.marshal j.payload) w in
      let (runs, commits) = run_json-Counted j.action (k.marshal j.payload) w in
      let (runs2, commits2) =
        attempts-Counted n (some j) value (processed || is_nil one.0) one.1 e in
      rw (e, attempts) (omega (arith, runs, runs2), commits2 ∙ commits)

  -- In a world that counts the runs of the command and the commits, over any reads: the agent
  -- commits each message once, and runs kubectl twice for each message that decodes and whose
  -- payload can be written as YAML, for no other, whatever kubectl answers.
  pub read_messages_twice :
      (reads : List (Option B × Option Error)) (w : W)
      → (c.runs (read_messages k reads w) ≡ 2 * runnable k reads + c.runs w)
        × (c.commits (read_messages k reads w) ≡ delivered reads + c.commits w)
  unfolding read_messages handle_message Counted times
  read_messages_twice [] w = (omega arith, omega arith)
  read_messages_twice ((none, e) ∷ reads) w = read_messages_twice reads w
  read_messages_twice ((some value, e) ∷ reads) w =
      let tried = (attempts k max_retries value false w).1 in
      let (runs, commits) = attempts-Counted max_retries (k.unmarshal value) value false w refl in
      let (runs2, commits2) = read_messages_twice reads (k.commit_message tried value) in
      (
        omega (arith, runs, runs2, c.commit-runs tried value),
        omega (arith, commits, commits2, c.commit-commits tried value),
      )
