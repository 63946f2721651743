-- ===== src/Scale/Stability.antt =====
-- Successive decisions of the autoscaler, and pools whose nodes have no known size.
use kl_internal_operator.Base.{
  ◌≡◌, ◌≢◌, refl, inl, none, arith, if◌then◌else◌, List, [], ◌∷◌, ◌++◌, length-append, All,
}
use kl_internal_operator.Base.Integers.{
  ℤ, pos, ◌≤ℤ◌, ◌<ℤ◌, ◌+ℤ◌, ◌-ℤ◌, int_eq, InRange, wrap, wrap-InRange, ltb_ℤ,
}
use kl_internal_operator.Exec.{returned}
use kl_internal_operator.Scale.{
  Input, Size, Node, Reason, add_node, del_node, below_minimum, nodes_filled, node_count, sum_sizes,
  add_size, no_size, get_allocatable, get_total_filled, get_filled_by_assuming_less, calculate,
  scale, scale_by_total,
}
use kl_internal_operator.Scale.Getters.{IsCounted}
use kl_internal_operator.Scale.Decision.{
  log_filled_state, log_filled-ne-panicked, calculate-Warrants,
}

sum_sizes-append :
    (acc : Size) (xs : List Node) (n : Node)
    → (sum_sizes acc (xs ++ n ∷ [])).memory ≡ (sum_sizes acc xs).memory +ℤ n.size.memory
unfolding sum_sizes
sum_sizes-append acc [] n = refl
sum_sizes-append acc (x ∷ xs) n = sum_sizes-append (add_size acc x.size) xs n

sum_sizes-InRange :
    (acc : Size) (xs : List Node) → InRange acc.memory → InRange (sum_sizes acc xs).memory
unfolding sum_sizes ◌+ℤ◌
sum_sizes-InRange acc [] h = h
sum_sizes-InRange acc (x ∷ xs) h = sum_sizes-InRange (add_size acc x.size) xs (wrap-InRange _)

add_sub_cancel : (a s : ℤ) → InRange a → InRange s → a +ℤ s -ℤ s ≡ a
unfolding ◌+ℤ◌ ◌-ℤ◌ wrap
add_sub_cancel a s h k = ground arith

-- The input of the next reconciliation, after `n` joined the pool and nothing else changed.
abbrev pub grow : Input → Node → Input
grow i n = record i {
  nodes = i.nodes ++ n ∷ [];
  stateful_count = pos 0;
  stateful_allocatable = none;
}

module _ (i : Input) (n first : Node) (rest : List Node) (nodes : i.nodes ≡ first ∷ rest)
    (sized : InRange n.size.memory) (alike : n.size.memory ≡ first.size.memory) where
  -- Without its first node the grown pool has the memory that the pool has now.
  grow-memory :
      (get_allocatable (grow i n)).memory -ℤ first.size.memory ≡ (get_allocatable i).memory
  unfolding get_allocatable
  grow-memory =
      rw (sum_sizes-append no_size i.nodes n, alike)
        (add_sub_cancel _ _ (sum_sizes-InRange no_size i.nodes (omega arith)) (rw alike at sized))

  grow-filled :
      pos 0 ≤ℤ i.total_used → (get_filled_by_assuming_less (grow i n)).0 ≡ (get_total_filled i).0
  unfolding get_filled_by_assuming_less get_total_filled
  grow-filled used = ground (arith, grow-memory)

  -- If `Calculate` adds a node to a pool with nodes, and the pool then has one more node with the
  -- memory of its first one and is else as it was, the next `Calculate` does not delete a node. The
  -- memory of the node and the threshold are in the range of the machine integers, the use and the
  -- threshold are not negative, and the cached count is empty or right.
  pub calculate_no_flap :
      pos 0 ≤ℤ i.total_used
      → pos 0 ≤ℤ i.threshold
      → InRange i.threshold
      → IsCounted i
      → (r r' : Reason) → (calculate i).0 ≡ returned (add_node, r)
      → (calculate (grow i n)).0 ≢ returned (del_node, r')
  unfolding ◌-ℤ◌ wrap
  calculate_no_flap used t range c r r' e e' = ground (
    arith,
    calculate-Warrants i add_node r c e,
    calculate-Warrants (grow i n) del_node r' (inl refl) e',
    grow-filled used,
    length-append i.nodes (n ∷ []),
  )

-- No node of the pool has a known memory.
abbrev pub Unsized : Input → Type 0
Unsized i = All (λ n. n.size.memory ≡ pos 0) i.nodes

sum_sizes-Unsized :
    (xs : List Node) (acc : Size)
    → All (λ n. n.size.memory ≡ pos 0) xs
    → acc.memory ≡ pos 0
    → (sum_sizes acc xs).memory ≡ pos 0
unfolding sum_sizes ◌+ℤ◌ wrap
sum_sizes-Unsized [] acc h z = z
sum_sizes-Unsized (x ∷ xs) acc h z = sum_sizes-Unsized xs (add_size acc x.size) h.1 (ground arith)

get_total_filled-Unsized :
    (i : Input) → Unsized i → pos 0 <ℤ i.total_used → get_total_filled i ≡ (returned (pos 200), i)
unfolding get_total_filled get_allocatable
get_total_filled-Unsized i h u = ground (arith, sum_sizes-Unsized i.nodes no_size h refl)

-- A pool whose nodes have no known memory, and which is in use, gets a node at every
-- reconciliation until it has its maximum, whatever the use is.
pub calculate-Unsized :
    (i : Input)
    → Unsized i
    → pos 0 <ℤ i.total_used
    → i.threshold ≤ℤ pos 200
    → node_count i <ℤ i.max_node
    → (r : Reason) × ((calculate i).0 ≡ returned (add_node, r))
unfolding calculate scale scale_by_total
calculate-Unsized i h u t m = (
  if ltb_ℤ (node_count i) i.min_node then below_minimum else nodes_filled,
  ground (arith, log_filled_state i, log_filled-ne-panicked i, get_total_filled-Unsized i h u),
)
