-- ===== src/Scale/Decision.antt =====
-- lib/rcalculate/main.go: what the decision of `Calculate` means.
use kl_internal_operator.Base.{◌<◌, ◌≡◌, ◌≢◌, refl, ◌⊎◌, inl, inr, arith, length, Bool-cases}
use kl_internal_operator.Base.Integers.{ltb_ℤ, ℤ, pos, ◌≤ℤ◌, ◌<ℤ◌, ◌-ℤ◌, int_eq}
use kl_internal_operator.Exec.{Outcome, returned, panicked}
use kl_internal_operator.Scale.{
  Input, Action, add_node, del_node, add_stateful, del_stateful, neutral, Reason, count_stateful,
  node_count, calculate, scale, scale_by_total, log_filled, downscale, scale_by_use, scale_stateful,
  get_stateful_filled, get_total_filled, get_filled_by_assuming_less,
}
use kl_internal_operator.Scale.Getters.{
  IsCounted, SameInput, get_stateful_count_lem, get_total_filled_state,
  get_filled_by_assuming_less_state, get_stateful_filled_state, get_total_filled-ne-panicked,
  get_filled_by_assuming_less-ne-panicked, get_stateful_filled-ne-panicked,
  get_stateful_filled_count, get_filled_by_assuming_less_nodes,
}

-- `filled` came back, and is at least, or less than, the bound.
abbrev pub AtLeast : ℤ → Outcome ℤ → Type 0
AtLeast bound (returned filled) = bound ≤ℤ filled
AtLeast bound panicked = ⊥

abbrev pub Below : ℤ → Outcome ℤ → Type 0
Below bound (returned filled) = filled <ℤ bound
Below bound panicked = ⊥

-- The state of the pool that calls for an action.
abbrev pub Warrants : Input → Action → Type 0
Warrants i add_node =
    (node_count i <ℤ i.max_node)
    × ((node_count i <ℤ i.min_node) ⊎ AtLeast i.threshold (get_total_filled i).0)
Warrants i del_node =
    (i.min_node <ℤ node_count i)
    × Below (i.threshold -ℤ pos 5) (get_filled_by_assuming_less i).0
    × (count_stateful i.nodes < length i.nodes)
Warrants i add_stateful =
    (count_stateful i.nodes < length i.nodes)
    × ((count_stateful i.nodes ≡ 0) ⊎ AtLeast i.threshold (get_stateful_filled i).0)
Warrants i del_stateful = ⊥
Warrants i neutral =
    ((i.max_node ≤ℤ node_count i)
      ⊎ ((i.min_node ≤ℤ node_count i) × Below i.threshold (get_total_filled i).0))
    × ((length i.nodes ≡ 0) ⊎ (0 < count_stateful i.nodes))

ruleset getters = (
  get_stateful_count_lem, get_total_filled_state, get_filled_by_assuming_less_state,
  get_stateful_filled_state, get_total_filled-ne-panicked, get_filled_by_assuming_less-ne-panicked,
  get_stateful_filled-ne-panicked, get_stateful_filled_count, get_filled_by_assuming_less_nodes,
)

-- If the memory in use is not negative, and the cached count of the stateful nodes is empty or
-- right, `Calculate` never panics.
pub calculate-ne-panicked :
    (i : Input) → IsCounted i → pos 0 ≤ℤ i.total_used → (calculate i).0 ≢ panicked
unfolding calculate scale scale_by_total log_filled scale_stateful scale_by_use downscale
calculate-ne-panicked i c h = grind (arith, getters)

-- What the later stages may answer.
abbrev Downscaled : Input → Action → Type 0
Downscaled i a = ((a ≡ del_node) × Warrants i del_node) ⊎ (a ≡ neutral)

downscale-Downscaled :
    (i : Input) (a : Action) (r : Reason)
    → IsCounted i
    → (downscale i).0 ≡ returned (a, r)
    → Downscaled i a
unfolding downscale
downscale-Downscaled i a r c e = grind (arith, getters)

-- Warrants are about the nodes and the bounds, and not about the caches.
Downscaled-SameInput : (i j : Input) (a : Action) → SameInput i j → Downscaled j a → Downscaled i a
Downscaled-SameInput i j a s d = grind (arith, getters)

SameInput-IsCounted : (i j : Input) → SameInput i j → IsCounted i → IsCounted j
SameInput-IsCounted i j s c = ground arith

abbrev ScaledByUse : Input → Action → Type 0
ScaledByUse i a =
    ((a ≡ add_stateful)
      × (count_stateful i.nodes < length i.nodes)
      × AtLeast i.threshold (get_stateful_filled i).0)
    ⊎ Downscaled i a

scale_by_use-ScaledByUse :
    (i : Input) (a : Action) (r : Reason)
    → IsCounted i
    → (scale_by_use i).0 ≡ returned (a, r)
    → ScaledByUse i a
unfolding scale_by_use
scale_by_use-ScaledByUse i a r c e =
    grind (arith, getters, downscale-Downscaled, Downscaled-SameInput, SameInput-IsCounted)

-- A filled count changes no warrant.
ScaledByUse-count :
    (i : Input) (c : ℤ) (a : Action)
    → ScaledByUse (record i { stateful_count = c }) a
    → ScaledByUse i a
ScaledByUse-count i c a d = grind (arith, getters)

abbrev ScaledStateful : Input → Action → Type 0
ScaledStateful i a =
    ((a ≡ add_stateful) × Warrants i add_stateful)
    ⊎ (Downscaled i a × ((length i.nodes ≡ 0) ⊎ (0 < count_stateful i.nodes)))

scale_stateful-ScaledStateful :
    (i : Input) (a : Action) (r : Reason)
    → IsCounted i
    → (scale_stateful i).0 ≡ returned (a, r)
    → ScaledStateful i a
unfolding scale_stateful
scale_stateful-ScaledStateful i a r c e =
    let k = record i { stateful_count = pos (count_stateful i.nodes) } in
    ground (
      arith,
      get_stateful_count_lem i c,
      scale_by_use-ScaledByUse k a r (inr refl),
      scale_by_use-ScaledByUse i a r c,
      ScaledByUse-count i (pos (count_stateful i.nodes)) a,
    )

pub log_filled_state : (i : Input) → (log_filled i).1 ≡ i
unfolding log_filled
log_filled_state i = grind (arith, getters)

pub log_filled-ne-panicked : (i : Input) → pos 0 ≤ℤ i.total_used → (log_filled i).0 ≢ panicked
unfolding log_filled
log_filled-ne-panicked i h = grind (arith, getters)

-- It goes on to the stateful nodes, and the pool has its maximum or is not full.
abbrev GoesOn : Input → Action → Reason → Type 0
GoesOn i a r =
    ((scale_stateful i).0 ≡ returned (a, r))
    × ((i.max_node ≤ℤ node_count i)
        ⊎ ((i.min_node ≤ℤ node_count i) × Below i.threshold (get_total_filled i).0))

scale_by_total-cases :
    (i : Input) (a : Action) (r : Reason)
    → i.min_node ≤ℤ node_count i
    → (scale_by_total i).0 ≡ returned (a, r)
    → ((a ≡ add_node) × Warrants i add_node) ⊎ GoesOn i a r
unfolding scale_by_total
scale_by_total-cases i a r m e = ground (arith, get_total_filled_state i)

scale-cases :
    (i : Input) (a : Action) (r : Reason)
    → (scale i).0 ≡ returned (a, r)
    → ((a ≡ add_node) × Warrants i add_node) ⊎ GoesOn i a r
unfolding scale
scale-cases i a r e = elim (Bool-cases (ltb_ℤ (node_count i) i.max_node)) [
  | inr most ↦ inr (ground (arith, e, most))
  | inl room ↦ elim (Bool-cases (ltb_ℤ (node_count i) i.min_node)) [
    | inl few ↦ inl (ground (arith, e, few, room))
    | inr enough ↦
        scale_by_total-cases i a r (ground (arith, enough)) (ground (arith, e, room, enough))
  ]
]

-- `Calculate` is `scale` after its log, which changes nothing.
calculate-scale :
    (i : Input) (a : Action) (r : Reason)
    → (calculate i).0 ≡ returned (a, r)
    → (scale i).0 ≡ returned (a, r)
unfolding calculate
calculate-scale i a r e = ground (arith, log_filled_state i)

calculate-cases :
    (i : Input) (a : Action) (r : Reason)
    → (calculate i).0 ≡ returned (a, r)
    → ((a ≡ add_node) × Warrants i add_node) ⊎ GoesOn i a r
calculate-cases i a r e = scale-cases i a r (calculate-scale i a r e)

-- If the cached count of the stateful nodes is empty or right, then an action that `Calculate`
-- answers is called for by the pool: a node is added below the maximum and only below the minimum
-- or at the threshold, deleted only above the minimum and when the rest would stay 5 below the
-- threshold, tagged only when one is stateless; nothing is done only when no node may or need be
-- added; and no stateful node is ever untagged.
pub calculate-Warrants :
    (i : Input) (a : Action) (r : Reason)
    → IsCounted i
    → (calculate i).0 ≡ returned (a, r)
    → Warrants i a
calculate-Warrants i add_node r c e =
    ground (arith, calculate-cases i add_node r e, scale_stateful-ScaledStateful i add_node r c)
calculate-Warrants i a r c e =
    ground (arith, calculate-cases i a r e, scale_stateful-ScaledStateful i a r c)
