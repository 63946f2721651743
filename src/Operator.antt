-- ===== src/Operator.antt =====
-- lib/operator.v2/main.go and container-message.go: the status that every resource carries, and
-- the interface `Resource` as a record of metadata, spec and status.
use kl_internal_operator.Base.{
  ℕ, String, Bool, true, false, ◌&&◌, ◌≡◌, ◌↔◌, Option, none, some, List, [], ◌∷◌, ◌++◌, arith, Eq,
  bool_beq, bool_beq_iff, text_beq, text_beq_iff,
}
use kl_internal_operator.Base.Integers.{ℤ, pos, int_beq, int_beq_iff}
use kl_internal_operator.GoMap.{GoMap, made, get, or_made, insert, entries}
use kl_internal_operator.Kube.{Condition, ObjectMeta}
use kl_internal_operator.RawJson.{RawJson}

pub record Check : Type 0 where
  pub status : Bool
  pub message : String
  pub generation : ℤ

-- `Check{}`
abbrev pub zero_check : Check
zero_check = record { status = false; message = ""; generation = pos 0 }

-- Go's `==` on the struct.
abbrev pub check_beq : Check → Check → Bool
check_beq a b =
    bool_beq a.status b.status
    && (text_beq a.message b.message && int_beq a.generation b.generation)

pub check_beq_iff : (a b : Check) → (check_beq a b ≡ true) ↔ (a ≡ b)
check_beq_iff a b =
    let status = bool_beq_iff a.status b.status in
    let message = text_beq_iff a.message b.message in
    let generation = int_beq_iff a.generation b.generation in
    (
      λ h. ground (arith, status, message, generation),
      λ h. ground (arith, h, status, message, generation),
    )

instance abbrev pub check_eq : Eq Check
check_eq = record { test = check_beq; test_iff = check_beq_iff }

pub record ContainerMessage : Type 0 where
  pub state : String
  pub pod : String
  pub container : String
  pub reason : String
  pub message : String
  pub exit_code : ℤ

pub record Status (V B : Type 0) : Type 0 where
  pub is_ready : Bool
  pub message : RawJson V B
  pub messages : List ContainerMessage
  pub display_vars : RawJson V B
  pub generated_vars : RawJson V B
  pub conditions : List Condition
  pub child_conditions : List Condition
  pub ops_conditions : List Condition
  pub checks : GoMap Check
  pub last_reconcile_time : ℕ

-- A resource of spec `S`.
pub record Object (S V B : Type 0) : Type 0 where
  pub metadata : ObjectMeta
  pub spec : S
  pub status : Status V B

-- The parts of corev1.ContainerStatus and corev1.Pod that `GetMessagesFromPods` reads.
pub record Terminated : Type 0 where
  pub reason : String
  pub message : String
  pub exit_code : ℤ

pub record Waiting : Type 0 where
  pub reason : String
  pub message : String

pub record ContainerStatus : Type 0 where
  pub name : String
  pub terminated : Option Terminated
  pub waiting : Option Waiting

pub record Pod : Type 0 where
  pub name : String
  pub container_statuses : List ContainerStatus

terminated_messages : String → ContainerStatus → List ContainerMessage
terminated_messages pod st = elim st.terminated [
  | none ↦ []
  | some t ↦
      record {
        state = "terminated";
        pod = pod;
        container = st.name;
        reason = t.reason;
        message = t.message;
        exit_code = t.exit_code;
      }
      ∷ []
]

waiting_messages : String → ContainerStatus → List ContainerMessage
waiting_messages pod st = elim st.waiting [
  | none ↦ []
  | some w ↦
      record {
        state = "waiting";
        pod = pod;
        container = st.name;
        reason = w.reason;
        message = w.message;
        exit_code = pos 0;
      }
      ∷ []
]

container_messages : String → List ContainerStatus → List ContainerMessage
container_messages pod [] = []
container_messages pod (st ∷ sts) =
    terminated_messages pod st ++ (waiting_messages pod st ++ container_messages pod sts)

unfoldable pub get_messages_from_pods : List Pod → List ContainerMessage
unfolding terminated_messages waiting_messages container_messages
get_messages_from_pods [] = []
get_messages_from_pods (p ∷ pods) =
    container_messages p.name p.container_statuses ++ get_messages_from_pods pods

-- `GetLocal`, `HasLocal` and `SetLocal`: the request's scratch map. `as` is the type assertion.
abbrev pub bind_option : {A B : Type 0} → Option A → (A → Option B) → Option B
bind_option none f = none
bind_option (some a) f = f a

unfoldable pub get_local : {L T : Type 0} → (L → Option T) → GoMap L → String → Option T
get_local assert locals key = bind_option (get locals key) assert

unfoldable pub has_local : {L : Type 0} → GoMap L → String → Bool
has_local locals key = elim (get locals key) [ none ↦ false | some _ ↦ true ]

unfoldable pub set_local : {L : Type 0} → GoMap L → String → L → GoMap L
set_local locals key value = made (insert key value (entries (or_made locals)))
