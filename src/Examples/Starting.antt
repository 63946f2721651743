-- ===== src/Examples/Starting.antt =====
-- The start of the operator at a concrete machine.
use kl_internal_operator.Base.{ℕ, suc, ◌≡◌, refl, true, false, none, ◌==◌, string_eq, if◌then◌else◌}
use kl_internal_operator.Startup.{Machine, main, set_up_all, start_manager, run_manager, after_env}
use kl_internal_operator.Startup.Running.{Started, main-Started}

-- The world counts the calls; the controllers of INFRA are not enabled.
abbrev machine : Machine ℕ
machine = record {
  flags = record {
    metrics_addr = ":9091";
    probe_addr = ":9092";
    enable_leader_election = false;
    is_dev = true;
  };
  set_env = none;
  getenv = λ key. if key == "COMM" then "true" else "";
  new_manager = λ w options. (none, suc w);
  set_up = λ w c. (none, suc w);
  add_healthz_check = λ w. (none, suc w);
  add_readyz_check = λ w. (none, suc w);
  start = λ w. (none, suc w);
}

main-Started_example : (machine.set_env ≡ none) × Started machine 0 8
unfolding main after_env set_up_all start_manager run_manager
main-Started_example = main-Started machine 0 8 refl
