-- ===== src/Examples.antt =====
-- The properties at concrete inputs: a server that keeps what it is sent, and small resources.
mod Requests
mod Pools
mod Accounts
mod Nodes
mod Messages
mod Applying
mod Builders
mod Wakes
mod Starting
mod Rounds
mod Clusters
use kl_internal_operator.Base.{
  ℕ, ◌≡◌, refl, text_beq, text_beq_iff, if◌then◌else◌, arith, String, true, false, Option, none,
  some, List, [], ◌∷◌,
}
use kl_internal_operator.Base.Integers.{pos}
use kl_internal_operator.GoMap.{GoMap, made, nil_map, entries}
use kl_internal_operator.Kube.{Error, Condition, Result, ok, ObjectMeta, new_error}
use kl_internal_operator.RawJson
use kl_internal_operator.RawJson.{Json}
use kl_internal_operator.Conditions.{find_first, FindsFirst}
use kl_internal_operator.Operator.{Status, Object, Check, zero_check}
use kl_internal_operator.Request.{Client, State, common_finalizer, foreground_finalizer}
use kl_internal_operator.Request.Converging.{Keeps, Stores}
use kl_internal_operator.Request.Keeping.{RemovesFinalizer}

-- JSON whose values are strings, and whose texts are the lists of the entries.
abbrev pub texts : Json String (List (String × String))
texts = record {
  marshal = λ m. ok (entries m);
  unmarshal = λ b. ok (made b);
  as_string = λ v. some v;
  of_string = λ s. s;
}

abbrev pub without_finalizer : List String → String → List String
without_finalizer [] f = []
without_finalizer (g ∷ fs) f =
    let rest = without_finalizer fs f in if text_beq g f then rest else g ∷ rest

pub without_finalizer-RemovesFinalizer : RemovesFinalizer without_finalizer
without_finalizer-RemovesFinalizer [] f g = (λ h. absurd h, λ h. absurd h.0)
without_finalizer-RemovesFinalizer (x ∷ fs) f g =
    let rest = without_finalizer-RemovesFinalizer fs f g in
    (
      λ h. ground (arith, rest.0, text_beq_iff x f),
      λ h. ground (arith, h.0, h.1, rest.1, text_beq_iff x f),
    )

abbrev pub account_labels : GoMap String
account_labels = made (("kloudlite.io/account-name", "acc") ∷ [])

-- A server that takes everything, at the time 1000.
abbrev pub server : {W S : Type 0} → Client W S String (List (String × String))
server = record {
  json = texts;
  now = λ w. 1000;
  update = λ w o. (none, o, w);
  update_status = λ w o. (none, o, w);
  kubectl = λ w args. (none, w);
  add_finalizer = λ fs f. f ∷ fs;
  remove_finalizer = without_finalizer;
  find_condition = find_first;
  ensured_labels = λ o. account_labels;
  ensured_annotations = λ o. made [];
}

pub server-Keeps : {W S : Type 0} → Keeps (server {W = W} {S = S})
server-Keeps = record {
  update-Keeps = λ w o. (refl, refl);
  update_status-Keeps = λ w o. (refl, refl);
}

pub find_first-FindsFirst : FindsFirst find_first
find_first-FindsFirst = record { find-nil = λ t. refl; find-cons = λ c cs t. refl }

abbrev pub failure : Condition
failure = record {
  ctype = "FailedWithErr";
  status = "False";
  observed_generation = pos 0;
  last_transition_time = 7;
  reason = "OpsFailedWithErr";
  message = "first";
}

abbrev pub timeout : Error
timeout = record { message = "timeout"; not_found = false }

abbrev pub metadata : Option ℕ → ObjectMeta
metadata deletion = record {
  api_version = "infra.kloudlite.io/v1";
  kind = "NodePool";
  name = "edge-pool";
  namespace = "";
  cluster_name = "";
  uid = "u-1";
  generation = pos 1;
  deletion_timestamp = deletion;
  labels = account_labels;
  annotations = nil_map;
  finalizers = foreground_finalizer ∷ common_finalizer ∷ [];
  owner_references = [];
}

abbrev pub status : GoMap Check → Status String (List (String × String))
status checks = record {
  is_ready = true;
  message = RawJson.empty;
  messages = [];
  display_vars = RawJson.empty;
  generated_vars = RawJson.empty;
  conditions = [];
  child_conditions = [];
  ops_conditions = failure ∷ [];
  checks = checks;
  last_reconcile_time = 0;
}

abbrev pub state :
    {S L : Type 0} → S → Option ℕ → GoMap Check → State Unit S String (List (String × String)) L
state spec deletion checks = record {
  object = record { metadata = metadata deletion; spec = spec; status = status checks };
  world = tt;
  locals = made [];
}

abbrev pub Resource : Type 0 → Type 0
Resource S = Object S String (List (String × String))

-- A server whose world is the resource that it has.
abbrev pub storing : {S : Type 0} → Client (Resource S) S String (List (String × String))
storing = record server {
  update = λ w o. (none, o, record o { status = w.status });
  update_status = λ w o. (none, o, record w { status = o.status });
}

pub storing-Keeps : {S : Type 0} → Keeps (storing {S = S})
storing-Keeps = record {
  update-Keeps = λ w o. (refl, refl);
  update_status-Keeps = λ w o. (refl, refl);
}

pub storing-Stores : {S : Type 0} → Stores (storing {S = S}) (λ w. w)
storing-Stores = record {
  update-Stores = λ w o taken. refl;
  update_status-Stores = λ w o taken. refl;
  kubectl-Stores = λ w args. refl;
}

-- The request of a reconciliation of the resource that the server has.
abbrev pub request :
    {S L : Type 0} → Resource S → State (Resource S) S String (List (String × String)) L
request o = record { object = o; world = o; locals = made [] }
