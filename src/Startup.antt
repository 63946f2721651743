-- ===== src/Startup.antt =====
-- main.go and env/env.go: the start of the operator. The flags, the environment, controller-runtime
-- and the `SetupWithManager` of each controller are the record `Machine`, over a world `W`; what is
-- logged is left out.
pub mod Running
use kl_internal_operator.Base.{
  String, Bool, true, false, Option, none, some, List, [], ◌∷◌, ◌!=◌, string_eq, if◌then◌else◌,
}
use kl_internal_operator.Kube.{Error}

pub data Controller : Type 0 where
  account : Controller
  domain : Controller
  region : Controller
  device : Controller
  cloud_provider : Controller
  node_pool : Controller
  worker_node : Controller
  edge : Controller

-- ctrl.Options, and whose configuration the manager gets.
pub record ManagerOptions : Type 0 where
  pub local_config : Bool
  pub metrics_bind_address : String
  pub health_probe_bind_address : String
  pub leader_election : Bool

pub record Flags : Type 0 where
  pub metrics_addr : String
  pub probe_addr : String
  pub enable_leader_election : Bool
  pub is_dev : Bool

-- `set_env` is env.Set, and `getenv` os.Getenv. A start that ends without an error is one whose
-- signal handler ended it.
pub record Machine (W : Type 0) : Type 0 where
  pub flags : Flags
  pub set_env : Option Error
  pub getenv : String → String
  pub new_manager : W → ManagerOptions → Option Error × W
  pub set_up : W → Controller → Option Error × W
  pub add_healthz_check : W → Option Error × W
  pub add_readyz_check : W → Option Error × W
  pub start : W → Option Error × W

-- What the program came to: it went on, called os.Exit(1), or panicked.
pub data Ending : Type 0 where
  went_on : Ending
  exited : Ending
  panicked : Ending

abbrev pub Run : Type 0 → Type 0
Run W = W → Ending × W

module _ {W : Type 0} where
  -- `if err := call; err != nil { … }`, then `rest`.
  abbrev pub checked : Ending → Option Error × W → Run W → Ending × W
  checked failure (none, w) rest = rest w
  checked failure (some e, w) rest = (failure, w)

  abbrev pub skip : Run W
  skip w = (went_on, w)

module _ {W : Type 0} (m : Machine W) where
  -- The calls of `SetupWithManager`, one after the other.
  unfoldable pub set_up_all : List Controller → Run W → Run W
  set_up_all [] rest w = rest w
  set_up_all (c ∷ cs) rest w = checked exited (m.set_up w c) (set_up_all cs rest)

  abbrev pub comm_controllers : List Controller
  comm_controllers = account ∷ domain ∷ region ∷ device ∷ []

  abbrev pub infra_controllers : List Controller
  infra_controllers = cloud_provider ∷ node_pool ∷ worker_node ∷ edge ∷ []

  -- `if os.Getenv(key) != "true" { return }`
  abbrev pub enabled : String → List Controller → List Controller
  enabled key cs = if m.getenv key != "true" then [] else cs

  unfoldable pub manager_options : ManagerOptions
  manager_options = record {
    local_config = m.flags.is_dev;
    metrics_bind_address = m.flags.metrics_addr;
    health_probe_bind_address = m.flags.probe_addr;
    leader_election = m.flags.enable_leader_election;
  }

  -- What follows the controllers.
  unfoldable pub start_manager : Run W
  start_manager w =
      checked exited (m.add_healthz_check w)
        (λ w. checked exited (m.add_readyz_check w) (λ w. checked panicked (m.start w) skip))

  -- `main` once the environment is read.
  unfoldable pub run_manager : Run W
  run_manager w = checked exited (m.new_manager w manager_options) (
      set_up_all (enabled "COMM" comm_controllers)
        (set_up_all (enabled "INFRA" infra_controllers) start_manager))

  -- `GetEnvOrDie` panics on an error, and `main` goes on after it.
  unfoldable pub after_env : Option Error → Run W
  after_env (some e) w = (panicked, w)
  after_env none w = run_manager w

  unfoldable pub main : Run W
  main w = after_env m.set_env w
