-- ===== src/Scale.antt =====
-- lib/rcalculate/main.go: the decision of a node pool to add, delete or tag a node.
-- `Input` caches two results in itself; a method that fills a cache returns the new `Input`.
-- The methods' error results are the constant nil, so they are left out; what is logged is too.
mod Getters
pub mod Decision
pub mod Stability
use kl_internal_operator.Base.{
  ℕ, suc, String, Bool, true, false, ◌&&◌, Option, none, some, List, [], ◌∷◌, length, ◌==◌, ◌!=◌,
  if◌then◌else◌,
}
use kl_internal_operator.Base.Integers.{ℤ, pos, ◌+ℤ◌, ◌-ℤ◌, ◌*ℤ◌, quot, ltb_ℤ, leb_ℤ, int_eq}
use kl_internal_operator.Exec.{Exec, pure, gets, modify, or_panic, ◌>>=◌, ◌>>◌}

-- The constants ADD_NODE, DEL_NODE, ADD_STATEFUL, DEL_STATEFUL and NEUTRAL.
pub data Action : Type 0 where
  add_node del_node add_stateful del_stateful neutral : Action

-- The message that comes with the action, one constructor for each text of `Calculate`.
pub data Reason : Type 0 where
  below_minimum nodes_filled no_stateful stateful_filled underused nothing_to_do : Reason

-- `Size` and `IntSize`, which have the same fields.
pub record Size : Type 0 where
  pub memory : ℤ
  pub cpu : ℤ

pub record Node : Type 0 where
  pub name : String
  pub stateful : Bool
  pub size : Size

pub record Input : Type 0 where
  pub min_node : ℤ
  pub max_node : ℤ
  pub nodes : List Node
  pub stateful_used : ℤ
  pub total_used : ℤ
  pub threshold : ℤ
  pub buffer : ℤ
  pub stateful_count : ℤ  -- a cache: 0 until it is filled
  pub stateful_allocatable : Option Size  -- a cache: nil until it is filled

-- `count++` in the loop of `GetStatefulCount`; a slice is shorter than 2 ^ 63.
abbrev pub count_stateful : List Node → ℕ
count_stateful [] = 0
count_stateful (n ∷ ns) = if n.stateful then suc (count_stateful ns) else count_stateful ns

abbrev pub node_count : Input → ℤ
node_count i = pos (length i.nodes)

abbrev pub no_size : Size
no_size = record { memory = pos 0; cpu = pos 0 }

abbrev pub add_size : Size → Size → Size
add_size s t = record { memory = s.memory +ℤ t.memory; cpu = s.cpu +ℤ t.cpu }

-- The loop of `getAllocatable`.
unfoldable pub sum_sizes : Size → List Node → Size
sum_sizes acc [] = acc
sum_sizes acc (n ∷ ns) = sum_sizes (add_size acc n.size) ns

-- The loop of `getStatefulAllocatable`, which skips the stateless nodes.
unfoldable pub sum_stateful_sizes : Size → List Node → Size
sum_stateful_sizes acc [] = acc
sum_stateful_sizes acc (n ∷ ns) =
    sum_stateful_sizes (if n.stateful then add_size acc n.size else acc) ns

unfoldable pub get_stateful_count : Exec Input ℤ
get_stateful_count i =
    if i.stateful_count != pos 0
    then pure i.stateful_count i
    else let count = pos (count_stateful i.nodes) in
      pure count (record i { stateful_count = count })

cached_allocatable : Option Size → Exec Input Size
cached_allocatable (some size) i = pure size i
cached_allocatable none i =
    let size = sum_stateful_sizes no_size i.nodes in
    pure size (record i { stateful_allocatable = some size })

unfoldable pub get_stateful_allocatable : Exec Input Size
unfolding cached_allocatable
get_stateful_allocatable i = cached_allocatable i.stateful_allocatable i

unfoldable pub get_allocatable : Input → Size
get_allocatable i = sum_sizes no_size i.nodes

unfoldable pub get_stateful_filled : Exec Input ℤ
get_stateful_filled = do
  i ← gets (λ i. i)
  if i.stateful_used == pos 0 then pure (pos 0) else do
    allocatable ← get_stateful_allocatable
    if allocatable.memory == pos 0 && ltb_ℤ (pos 0) i.total_used
        then pure (pos 200)
        else if allocatable.memory == pos 0
        then pure (pos 0)
        else or_panic (quot (i.stateful_used *ℤ pos 100) allocatable.memory)

unfoldable pub get_total_filled : Exec Input ℤ
get_total_filled = do
  i ← gets (λ i. i)
  let allocatable = get_allocatable i
  if i.total_used == pos 0
      then pure (pos 0)
      else if allocatable.memory == pos 0 && ltb_ℤ (pos 0) i.total_used
      then pure (pos 200)
      else if allocatable.memory == pos 0
      then pure (pos 0)
      else or_panic (quot ((i.total_used +ℤ i.buffer) *ℤ pos 100) allocatable.memory)

-- The part of `getFilledByAssumingLess` behind its early returns: `i.Nodes[0]` is there.
filled_without_first : List Node → Exec Input ℤ
filled_without_first [] = pure (pos 200)
filled_without_first (first ∷ _) = do
  i ← gets (λ i. i)
  let rest = (get_allocatable i).memory -ℤ first.size.memory
  if rest == pos 0 && ltb_ℤ (pos 0) i.total_used
      then pure (pos 200)
      else or_panic (quot ((i.total_used +ℤ i.buffer) *ℤ pos 100) rest)

unfoldable pub get_filled_by_assuming_less : Exec Input ℤ
unfolding filled_without_first
get_filled_by_assuming_less = do
  i ← gets (λ i. i)
  if i.total_used == pos 0 then pure (pos 0) else filled_without_first i.nodes

-- The downscaling block of `Calculate`, and its last return.
unfoldable pub downscale : Exec Input (Action × Reason)
downscale = do
  i ← gets (λ i. i)
  if ltb_ℤ i.min_node (node_count i)
      then (do
        filled ← get_filled_by_assuming_less
        if ltb_ℤ filled (i.threshold -ℤ pos 5)
            then (do
              count ← get_stateful_count
              if ltb_ℤ count (node_count i)
                  then pure (del_node, underused)
                  else pure (neutral, nothing_to_do))
            else pure (neutral, nothing_to_do))
      else pure (neutral, nothing_to_do)

-- The second half of the upscaling block: tag one more node as stateful.
unfoldable pub scale_by_use : Exec Input (Action × Reason)
scale_by_use = do
  i ← gets (λ i. i)
  filled ← get_stateful_filled
  if leb_ℤ i.threshold filled
      then (do
        count ← get_stateful_count
        if ltb_ℤ count (node_count i) then pure (add_stateful, stateful_filled) else downscale)
      else downscale

unfoldable pub scale_stateful : Exec Input (Action × Reason)
scale_stateful = do
  i ← gets (λ i. i)
  if ltb_ℤ (pos 0) (node_count i)
      then (do
        count ← get_stateful_count
        if count == pos 0 then pure (add_stateful, no_stateful) else scale_by_use)
      else scale_by_use

-- `Calculate` runs two of the getters once more for its log, and they may panic there.
unfoldable pub log_filled : Exec Input ℤ
log_filled = do _ ← get_total_filled; get_filled_by_assuming_less

-- The upscaling block by the total use, for a pool below its maximum that has its minimum.
unfoldable pub scale_by_total : Exec Input (Action × Reason)
scale_by_total = do
  i ← gets (λ i. i)
  filled ← get_total_filled
  if leb_ℤ i.threshold filled && ltb_ℤ (node_count i) i.max_node
      then pure (add_node, nodes_filled)
      else scale_stateful

-- `Calculate` behind its log.
unfoldable pub scale : Exec Input (Action × Reason)
scale = do
  i ← gets (λ i. i)
  if ltb_ℤ (node_count i) i.max_node
      then (if ltb_ℤ (node_count i) i.min_node
          then pure (add_node, below_minimum)
          else scale_by_total)
      else scale_stateful

unfoldable pub calculate : Exec Input (Action × Reason)
calculate = do _ ← log_filled; scale
