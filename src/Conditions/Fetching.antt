-- ===== src/Conditions/Fetching.antt =====
-- lib/conditions/main.go: `FromPod` and `FromResource`, which read the conditions of a resource of the
-- API server.
use Prim.Native.String.{◌++◌ as ◌<>◌}
use kl_internal_operator.Base.{String, Bool, Option, none, some, List, ◌++◌, map, if◌then◌else◌}
use kl_internal_operator.Base.Integers.{pos}
use kl_internal_operator.Exec.{Outcome, returned, panicked}
use kl_internal_operator.Kube.{Result, ok, err, Condition, condition_true, condition_false}
use kl_internal_operator.Conditions.{specified}

-- The parts of corev1.ContainerStatus that are read; `running` is the text of `StartedAt`.
pub record ContainerState : Type 0 where
  pub name : String
  pub ready : Bool
  pub waiting : Option (String × String)
  pub running : Option String

pub record StatusStruct : Type 0 where
  pub conditions : List Condition
  pub container_statuses : List ContainerState

-- What `FromPod` asks: the resource after `client.Get`, whose status is a `statusStruct` or, with
-- `none`, a value of another type, such as the map that a client writes there. What `FromResource`
-- asks: the resource `H`, its bytes `B`, and the conditions that json.Unmarshal finds there.
pub record ConditionReader (H B : Type 0) : Type 0 where
  pub get_pod : String × String → Result (Option StatusStruct)
  pub get_resource : String × String → Result H
  pub marshal : H → Result B
  pub unmarshal_conditions : B → Result (List Condition)

unfoldable pub prefixed : String → Condition → Condition
prefixed type_prefix c = record c { ctype = type_prefix <> ("-" <> c.ctype) }

-- A running container's reason goes over that of a waiting one.
unfoldable pub container_condition : String → ContainerState → Condition
container_condition type_prefix cs =
    let (reason, message) : String × String = elim cs.running [
      | some since ↦ ("Running", "Container running since " <> since)
      | none ↦ elim cs.waiting [ none ↦ ("", "") | some w ↦ w ]
    ] in
    record {
      ctype = type_prefix <> ("-container-" <> cs.name);
      status = (if cs.ready then condition_true else condition_false);
      observed_generation = pos 0;
      last_transition_time = 0;
      reason = reason;
      message = message;
    }

unfoldable pub of_status : String → Option StatusStruct → Outcome (Result (List Condition))
of_status type_prefix none = panicked
of_status type_prefix (some status) = returned (
    ok (
      map (prefixed type_prefix) status.conditions
      ++ map (container_condition type_prefix) status.container_statuses))

unfoldable pub of_resource : String → Condition → Condition
of_resource type_prefix c = record c { ctype = type_prefix <> c.ctype; reason = specified c.reason }

module _ {H B : Type 0} (k : ConditionReader H B) where
  unfoldable pub from_pod : String → String × String → Outcome (Result (List Condition))
  from_pod type_prefix nn = elim (k.get_pod nn) [
    | err e ↦ returned (err e)
    | ok status ↦ of_status type_prefix status
  ]

  unfoldable pub from_resource : String → String × String → Result (List Condition)
  from_resource type_prefix nn = elim (k.get_resource nn) [
    | err e ↦ err e
    | ok obj ↦ elim (k.marshal obj) [
      | err e ↦ err e
      | ok m ↦ elim (k.unmarshal_conditions m) [
        | err e ↦ err e
        | ok c ↦ ok (map (of_resource type_prefix) c)
      ]
    ]
  ]
