-- ===== src/Agent.antt =====
-- agent/internal/app/main.go: the agent, which runs kubectl for the messages of a Kafka topic. What
-- is printed is left out. The endless loop of `readMessages` is its run over any number of reads.
pub mod Counting
use kl_internal_operator.Base.{
  ℕ, zero, suc, String, Bool, true, false, ◌||◌, Option, none, some, List, [], ◌∷◌,
}
use kl_internal_operator.Kube.{Error, Result, ok, err}
use kl_internal_operator.StepResult.{is_nil}

-- The struct `Message`, with a payload `P`.
pub record Message (P : Type 0) : Type 0 where
  pub action : String
  pub payload : P

-- What the agent calls, over a world `W`, with the bytes `B`: encoding/json, sigs.k8s.io/yaml, the
-- text of errors.NewEf, the command with its standard input, and the consumer's CommitMessage.
pub record Outside (W P B : Type 0) : Type 0 where
  pub unmarshal : B → Option (Message P)
  pub marshal : P → Result B
  pub json_to_yaml : B → Result B
  pub new_ef : Error → String → Error
  pub run : W → List String → B → Option Error × W
  pub commit_message : W → B → W

abbrev pub max_retries : ℕ
max_retries = 2

module _ {W P B : Type 0} (k : Outside W P B) where
  abbrev pub run_yaml : String → Result B → W → Option Error × W
  run_yaml action (err e) w = (some (k.new_ef e "could not convert JSON to YAML"), w)
  run_yaml action (ok yb) w = k.run w ("kubectl" ∷ action ∷ "-f" ∷ "-" ∷ []) yb

  abbrev pub run_json : String → Result B → W → Option Error × W
  run_json action (err e) w = (some (k.new_ef e "could not unmarshal into []byte"), w)
  run_json action (ok jb) w = run_yaml action (k.json_to_yaml jb) w

  unfoldable pub process_message : String → P → W → Option Error × W
  process_message action payload w = run_json action (k.marshal payload) w

  -- The loop over `rCount`, with the rounds that are left: a message that does not decode ends it, and
  -- neither an error of `processMesssage` nor a success does. Beside the world, `hasProcessed`.
  unfoldable pub attempts : ℕ → B → Bool → W → Bool × W
  attempts zero value processed w = (processed, w)
  attempts (suc n) value processed w = elim (k.unmarshal value) [
    | none ↦ (processed, w)
    | some j ↦
        let (e, w2) = process_message j.action j.payload w in
        attempts n value (processed || is_nil e) w2
  ]

  -- One round of `readMessages` with a message.
  unfoldable pub handle_message : B → W → W
  handle_message value w = k.commit_message (attempts max_retries value false w).1 value

  -- `readMessages` over what the consumer reads: the message, if there is one, and an error, which is
  -- only printed.
  unfoldable pub read_messages : List (Option B × Option Error) → W → W
  read_messages [] w = w
  read_messages ((none, e) ∷ reads) w = read_messages reads w
  read_messages ((some value, e) ∷ reads) w = read_messages reads (handle_message value w)
