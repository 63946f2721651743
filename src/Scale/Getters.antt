-- ===== src/Scale/Getters.antt =====
-- lib/rcalculate/main.go: what the getters of `Input` return and what they change.
use kl_internal_operator.Base.{◌≡◌, ◌≢◌, ◌⊎◌, arith}
use kl_internal_operator.Base.Integers.{ℤ, pos, ◌≤ℤ◌, quot, int_eq}
use kl_internal_operator.Exec.{returned, panicked}
use kl_internal_operator.Scale.{
  Input, count_stateful, get_stateful_count, get_stateful_allocatable, get_stateful_filled,
  get_total_filled, get_filled_by_assuming_less, get_allocatable,
}

-- The cached count is not filled yet, or it is right.
abbrev pub IsCounted : Input → Type 0
IsCounted i = (i.stateful_count ≡ pos 0) ⊎ (i.stateful_count ≡ pos (count_stateful i.nodes))

pub get_stateful_count_lem :
    (i : Input)
    → IsCounted i
    → get_stateful_count i ≡ (
      returned (pos (count_stateful i.nodes)),
      record i { stateful_count = pos (count_stateful i.nodes) },
    )
unfolding get_stateful_count
get_stateful_count_lem i h = ground arith

-- The two inputs differ in the second cache at most.
pub record SameInput (i j : Input) : Type 0 where
  pub min_node : j.min_node ≡ i.min_node
  pub max_node : j.max_node ≡ i.max_node
  pub nodes : j.nodes ≡ i.nodes
  pub stateful_used : j.stateful_used ≡ i.stateful_used
  pub total_used : j.total_used ≡ i.total_used
  pub threshold : j.threshold ≡ i.threshold
  pub buffer : j.buffer ≡ i.buffer
  pub stateful_count : j.stateful_count ≡ i.stateful_count

pub get_total_filled_state : (i : Input) → (get_total_filled i).1 ≡ i
unfolding get_total_filled quot
get_total_filled_state i = ground arith

pub get_filled_by_assuming_less_state : (i : Input) → (get_filled_by_assuming_less i).1 ≡ i
unfolding get_filled_by_assuming_less quot
get_filled_by_assuming_less_state i = ground arith

pub get_stateful_filled_state : (i : Input) → SameInput i (get_stateful_filled i).1
unfolding get_stateful_filled get_stateful_allocatable quot
get_stateful_filled_state i = ground arith

pub get_total_filled-ne-panicked : (i : Input) → (get_total_filled i).0 ≢ panicked
unfolding get_total_filled quot
get_total_filled-ne-panicked i = ground arith

pub get_filled_by_assuming_less-ne-panicked :
    (i : Input) → pos 0 ≤ℤ i.total_used → (get_filled_by_assuming_less i).0 ≢ panicked
unfolding get_filled_by_assuming_less quot
get_filled_by_assuming_less-ne-panicked i h = ground arith

pub get_stateful_filled-ne-panicked : (i : Input) → (get_stateful_filled i).0 ≢ panicked
unfolding get_stateful_filled get_stateful_allocatable quot
get_stateful_filled-ne-panicked i = ground arith

-- A cached count does not change how full the stateful nodes are.
pub get_stateful_filled_count :
    (i : Input) (c : ℤ)
    → (get_stateful_filled (record i { stateful_count = c })).0 ≡ (get_stateful_filled i).0
unfolding get_stateful_filled get_stateful_allocatable
get_stateful_filled_count i c = ground arith

-- Nor does a cache change how full the nodes would be without the first one.
pub get_filled_by_assuming_less_nodes :
    (i j : Input)
    → j.nodes ≡ i.nodes
    → j.total_used ≡ i.total_used
    → j.buffer ≡ i.buffer
    → (get_filled_by_assuming_less j).0 ≡ (get_filled_by_assuming_less i).0
unfolding get_filled_by_assuming_less get_allocatable
get_filled_by_assuming_less_nodes i j n t b = ground arith
