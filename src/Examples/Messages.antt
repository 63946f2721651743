-- ===== src/Examples/Messages.antt =====
-- The properties of the agent at concrete inputs.
use kl_internal_operator.Base.{
  ◌≡◌, refl, ℕ, suc, String, ◌==◌, string_eq, if◌then◌else◌, none, some, [], ◌∷◌,
}
use kl_internal_operator.Kube.{ok}
use kl_internal_operator.Agent.{Outside, read_messages}
use kl_internal_operator.Agent.Counting.{Counters, read_messages_twice}

-- The world is the number of runs with that of commits; the empty message does not decode.
abbrev outside : Outside (ℕ × ℕ) String String
outside = record {
  unmarshal = λ b. if b == "" then none else some (record { action = "apply"; payload = b });
  marshal = λ p. ok p;
  json_to_yaml = λ b. ok b;
  new_ef = λ e text. e;
  run = λ w args b. (none, (suc w.0, w.1));
  commit_message = λ w b. (w.0, suc w.1);
}

abbrev counters : Counters outside
counters = record {
  runs = λ w. w.0;
  commits = λ w. w.1;
  run-runs = λ w args b. refl;
  run-commits = λ w args b. refl;
  commit-runs = λ w b. refl;
  commit-commits = λ w b. refl;
}

read_messages_twice_example :
    ((read_messages outside ((some "a", none) ∷ (none, none) ∷ (some "", none) ∷ []) (0, 0)).0 ≡ 2)
    × ((read_messages outside ((some "a", none) ∷ (none, none) ∷ (some "", none) ∷ []) (0, 0)).1
        ≡ 2)
read_messages_twice_example =
    read_messages_twice outside counters ((some "a", none) ∷ (none, none) ∷ (some "", none) ∷ [])
      (0, 0)
