-- ===== src/NodePool/Index.antt =====
-- The index of a new worker node, and the node that a scale-down deletes.
use kl_internal_operator.Base.{
  ℕ, zero, suc, ◌+◌, ◌≤◌, ◌<◌, ◌≡◌, ◌≢◌, refl, ◌⊎◌, inl, inr, true, false, some, List, [], ◌∷◌,
  length, arith, ◌==◌, All, Any, All-map, Bool-cases, if◌then◌else◌,
}
use kl_internal_operator.Base.Integers.{ℤ, pos, ◌≤ℤ◌, ltb_ℤ, int_eq}
use kl_internal_operator.NodePool.{WorkerNode, is_taken, first_free, new_index, last_index, node_at}

-- No worker node has the index.
abbrev pub IsFree : ℕ → List WorkerNode → Type 0
IsFree i = All (λ n. n.spec.index ≢ pos i)

is_taken_sound : (i : ℕ) (nodes : List WorkerNode) → is_taken i nodes ≡ false → IsFree i nodes
unfolding is_taken
is_taken_sound i [] h = tt
is_taken_sound i (n ∷ nodes) h = (λ e. ground arith, is_taken_sound i nodes (ground arith))

-- The nodes whose index is not `i`.
without_index : ℕ → List WorkerNode → List WorkerNode
without_index i [] = []
without_index i (n ∷ nodes) =
    let rest = without_index i nodes in if n.spec.index == pos i then rest else n ∷ rest

length-without_index_le :
    (i : ℕ) (nodes : List WorkerNode) → length (without_index i nodes) ≤ length nodes
unfolding without_index
length-without_index_le i [] = omega arith
length-without_index_le i (n ∷ nodes) = ground (arith, length-without_index_le i nodes)

length-without_index :
    (i : ℕ) (nodes : List WorkerNode)
    → is_taken i nodes ≡ true
    → length (without_index i nodes) < length nodes
unfolding without_index is_taken
length-without_index i [] h = cc
length-without_index i (n ∷ nodes) h =
    ground (arith, length-without_index i nodes, length-without_index_le i nodes)

is_taken-without_index :
    (i j : ℕ) (nodes : List WorkerNode)
    → i ≢ j
    → is_taken j (without_index i nodes) ≡ is_taken j nodes
unfolding without_index is_taken
is_taken-without_index i j [] h = refl
is_taken-without_index i j (n ∷ nodes) h = ground (arith, is_taken-without_index i j nodes h)

-- `k` numbers from `j` on are all taken.
abbrev Taken : ℕ → ℕ → List WorkerNode → Type 0
Taken zero j nodes = Unit
Taken (suc k) j nodes = (is_taken j nodes ≡ true) × Taken k (suc j) nodes

Taken-without_index :
    (k i j : ℕ) (nodes : List WorkerNode)
    → i < j
    → Taken k j nodes
    → Taken k j (without_index i nodes)
Taken-without_index zero i j nodes h t = tt
Taken-without_index (suc k) i j nodes h t = (
  ground (arith, is_taken-without_index i j nodes, t.0),
  Taken-without_index k i (suc j) nodes (omega arith) t.1,
)

-- As many indices as are taken, so many nodes there are.
Taken-le-length : (k j : ℕ) (nodes : List WorkerNode) → Taken k j nodes → k ≤ length nodes
Taken-le-length zero j nodes t = omega arith
Taken-le-length (suc k) j nodes t =
    let fewer =
      Taken-le-length k (suc j) (without_index j nodes)
        (Taken-without_index k j (suc j) nodes (omega arith) t.1) in
    omega (arith, length-without_index j nodes t.0)

is_taken-Taken :
    (k j : ℕ) (nodes : List WorkerNode)
    → ((m : ℕ) → j ≤ m → m < j + k → is_taken m nodes ≡ true)
    → Taken k j nodes
is_taken-Taken zero j nodes h = tt
is_taken-Taken (suc k) j nodes h = (
  h j (omega arith) (omega arith),
  is_taken-Taken k (suc j) nodes (λ m l u. h m (omega arith) (omega arith)),
)

first_free_below :
    (left i j : ℕ) (nodes : List WorkerNode)
    → i ≤ j
    → j < first_free left i nodes
    → is_taken j nodes ≡ true
unfolding first_free
first_free_below zero i j nodes l u = absurd (omega arith)
first_free_below (suc left) i j nodes l u = ground (arith, first_free_below left (suc i) j nodes)

first_free_le : (left i : ℕ) (nodes : List WorkerNode) → first_free left i nodes ≤ i + left
unfolding first_free
first_free_le zero i nodes = omega arith
first_free_le (suc left) i nodes = ground (arith, first_free_le left (suc i) nodes)

first_free_found :
    (left i : ℕ) (nodes : List WorkerNode)
    → first_free left i nodes < i + left
    → is_taken (first_free left i nodes) nodes ≡ false
unfolding first_free
first_free_found zero i nodes h = absurd (omega arith)
first_free_found (suc left) i nodes h = ground (arith, first_free_found left (suc i) nodes)

not_taken : (nodes : List WorkerNode) → is_taken (new_index nodes) nodes ≡ false
unfolding new_index
not_taken nodes = elim (Bool-cases (is_taken (first_free (length nodes) 0 nodes) nodes)) [
  | inr free ↦ free
  | inl taken ↦
      let count = length nodes in
      let full = is_taken-Taken (suc count) 0 nodes (λ m l u. ground (
        arith,
        taken,
        first_free_found count 0 nodes,
        first_free_le count 0 nodes,
        first_free_below count 0 m nodes,
      )) in
      absurd (omega (arith, Taken-le-length (suc count) 0 nodes full))
]

taken_by :
    (i : ℕ) (nodes : List WorkerNode)
    → is_taken i nodes ≡ true
    → Any (λ n. n.spec.index ≡ pos i) nodes
unfolding is_taken
taken_by i [] h = cc
taken_by i (n ∷ nodes) h = ground (arith, taken_by i nodes)

-- The index of a new worker node is the least number that no worker node has, and it is at most the
-- number of the worker nodes: any number `j` is not below it or is the index of a worker node.
pub new_index_least :
    (nodes : List WorkerNode) (j : ℕ)
    → (new_index nodes ≤ length nodes)
      × IsFree (new_index nodes) nodes
      × ((new_index nodes ≤ j) ⊎ Any (λ n. n.spec.index ≡ pos j) nodes)
unfolding new_index
new_index_least nodes j = (
  omega (arith, first_free_le (length nodes) 0 nodes),
  is_taken_sound (new_index nodes) nodes (not_taken nodes),
  elim (Bool-cases (is_taken j nodes)) [
    | inl taken ↦ inr (taken_by j nodes taken)
    | inr free ↦ inl (ground (arith, free, first_free_below (length nodes) 0 j nodes))
  ],
)

last_index_bound :
    (last : ℤ) (nodes : List WorkerNode)
    → (last ≤ℤ last_index last nodes) × All (λ n. n.spec.index ≤ℤ last_index last nodes) nodes
unfolding last_index
last_index_bound last [] = (omega arith, tt)
last_index_bound last (n ∷ nodes) =
    let next = if ltb_ℤ last n.spec.index then n.spec.index else last in
    let (above, all) = last_index_bound next nodes in (ground arith, (ground arith, all))

last_index_reached :
    (last : ℤ) (nodes : List WorkerNode)
    → (last_index last nodes ≡ last)
      ⊎ ((n : WorkerNode) × (node_at (last_index last nodes) nodes ≡ some n))
unfolding last_index node_at
last_index_reached last [] = inl refl
last_index_reached last (n ∷ nodes) =
    let next = if ltb_ℤ last n.spec.index then n.spec.index else last in
    let last_of = last_index next nodes in
    elim (Bool-cases (n.spec.index == last_of)) [
      | inl here ↦ inr (n, rw here)
      | inr later ↦ elim (last_index_reached next nodes) [
        | inl stays ↦ inl (ground arith)
        | inr (m, found) ↦ inr (m, ground arith)
      ]
    ]

node_at-index :
    (i : ℤ) (nodes : List WorkerNode) (n : WorkerNode) → node_at i nodes ≡ some n → n.spec.index ≡ i
unfolding node_at
node_at-index i [] n h = cc
node_at-index i (m ∷ nodes) n h = ground (arith, node_at-index i nodes n)

-- In a pool with nodes, none of which has a negative index, the scale-down finds a node to delete,
-- and no node of the pool has a greater index.
pub last_node :
    (n : WorkerNode) (nodes : List WorkerNode)
    → All (λ m. pos 0 ≤ℤ m.spec.index) (n ∷ nodes)
    → (victim : WorkerNode) × (node_at (last_index (pos 0) (n ∷ nodes)) (n ∷ nodes) ≡ some victim)
      × All (λ m. m.spec.index ≤ℤ victim.spec.index) (n ∷ nodes)
last_node n nodes h =
    let bound = last_index_bound (pos 0) (n ∷ nodes) in
    let last = last_index (pos 0) (n ∷ nodes) in
    elim (last_index_reached (pos 0) (n ∷ nodes)) [
      | inr (v, found) ↦
          let at_last = node_at-index last (n ∷ nodes) v found in
          (v, found, All-map _ _ (n ∷ nodes) (λ m p. ground (arith, at_last, p)) bound.1)
      | inl zero_last ↦
          let at_last : n.spec.index ≡ last = ground (arith, zero_last, bound.1.0, h.0) in
          (
            n,
            unfold node_at in ground (arith, at_last),
            All-map _ _ (n ∷ nodes) (λ m p. ground (arith, at_last, p)) bound.1,
          )
    ]
