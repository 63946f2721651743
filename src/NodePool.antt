-- ===== src/NodePool.antt =====
-- apis/infra/v1/nodepool_types.go, workernode_types.go and controllers/infra/nodepool_controller.go:
-- the data of a node pool and the choices that its controller makes. The steps are in the children.
pub mod Steps
pub mod Index
pub mod Unsized
use kl_internal_operator.Base.{
  ℕ, zero, suc, ◌-◌, ◌+◌, String, Bool, true, false, Option, none, some, List, [], ◌∷◌, map, length,
  ◌==◌, string_eq, if◌then◌else◌,
}
use kl_internal_operator.Base.Integers.{ℤ, pos, ◌*ℤ◌, ltb_ℤ, int_eq}
use kl_internal_operator.GoMap.{GoMap, made, get}
use kl_internal_operator.Kube.{OwnerReference}
use kl_internal_operator.Scale

pub record NodePoolSpec : Type 0 where
  pub account_name : String
  pub cluster_name : String
  pub edge_name : String
  pub provider : String
  pub provider_name : String
  pub region : String
  pub config : String
  pub min : ℤ
  pub max : ℤ

pub record WorkerNodeSpec : Type 0 where
  pub stateful : Bool
  pub cluster_name : String
  pub account_name : String
  pub region : String
  pub edge_name : String
  pub provider : String
  pub provider_name : String
  pub config : String
  pub pool : String
  pub index : ℤ

-- What the controller reads and writes of a WorkerNode.
pub record WorkerNode : Type 0 where
  pub name : String
  pub labels : GoMap String
  pub owner_references : List OwnerReference
  pub spec : WorkerNodeSpec

-- `iDetail` and `iDetails`
pub record IDetail : Type 0 where
  pub cpu : ℤ
  pub memory : ℤ

pub record IDetails : Type 0 where
  pub aws : GoMap IDetail
  pub digital_ocean : GoMap IDetail

abbrev no_detail : Option IDetail → IDetail
no_detail none = record { cpu = pos 0; memory = pos 0 }
no_detail (some d) = d

-- `getResourceSize`. A `case` of Go does not fall through: the one for "do" leaves the size 0.
-- `instance_type` is what json.Unmarshal of the configuration leaves in `InstanceType`.
unfoldable pub get_resource_size : (String → String) → IDetails → WorkerNode → Scale.Size
get_resource_size instance_type details node =
    let size =
      if node.spec.provider == "aws"
      then no_detail (get details.aws (instance_type node.spec.config))
      else no_detail none in
    record { memory = size.memory *ℤ pos 1000; cpu = size.cpu *ℤ pos 1000 }

-- The loop of `Index` over the worker nodes: is `i` the index of one of them?
unfoldable pub is_taken : ℕ → List WorkerNode → Bool
is_taken i [] = false
is_taken i (n ∷ nodes) = if pos i == n.spec.index then true else is_taken i nodes

-- The outer loop of `Index`, from `i` with `left` rounds to go.
unfoldable pub first_free : ℕ → ℕ → List WorkerNode → ℕ
first_free zero i nodes = i
first_free (suc left) i nodes =
    let rest = first_free left (suc i) nodes in if is_taken i nodes then rest else i

-- `Index`: the first number below the count that no node has, or the count.
unfoldable pub new_index : List WorkerNode → ℕ
new_index nodes = first_free (length nodes) 0 nodes

-- The loop that finds the last index, from 0.
unfoldable pub last_index : ℤ → List WorkerNode → ℤ
last_index last [] = last
last_index last (n ∷ nodes) =
    last_index (if ltb_ℤ last n.spec.index then n.spec.index else last) nodes

-- The first worker node with the index.
unfoldable pub node_at : ℤ → List WorkerNode → Option WorkerNode
node_at i [] = none
node_at i (n ∷ nodes) = if n.spec.index == i then some n else node_at i nodes

-- `Nodes` of the input of the autoscaler.
unfoldable pub scale_nodes : (String → String) → IDetails → List WorkerNode → List Scale.Node
scale_nodes instance_type details = map λ n. record {
  name = n.name;
  stateful = n.spec.stateful;
  size = get_resource_size instance_type details n;
}
