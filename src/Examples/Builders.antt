-- ===== src/Examples/Builders.antt =====
-- The properties of the condition builders and of jobs at concrete inputs.
use kl_internal_operator.Base.{
  ◌≡◌, ◌↔◌, refl, String, Bool, true, false, Option, none, some, List, [], ◌∷◌,
}
use kl_internal_operator.GoMap.{made}
use kl_internal_operator.Kube.{ok, err, new_error}
use kl_internal_operator.Conditions.{find_first}
use kl_internal_operator.StatusConditions.{Meta, StatusConditions}
use kl_internal_operator.StatusConditions.Sources.{
  ApiReader, build_from_helm_msvc, build_from_statefulset, build_from_deployment,
}
use kl_internal_operator.StatusConditions.Second
use kl_internal_operator.StatusConditions.Agreement.{as_listed, listed_result, builders_agree}
use kl_internal_operator.Jobs.{
  JobCondition, KubeJob, WatchEvent, JobClient, answer, watch_events, has_failed, has_succeeded,
  has_completed,
}
use kl_internal_operator.Jobs.Watching.{Ends, watch_events_iff}
use kl_internal_operator.Jobs.Outcomes.{Agrees, has_completed-Agrees}

-- A new condition stands before the others.
abbrev meta : Meta
meta = record {
  find_status_condition = find_first;
  set_status_condition = λ l c. c ∷ l;
  is_status_condition_true = λ l t. true;
  is_status_condition_false = λ l t. false;
}

abbrev reader : ApiReader String String
reader = record {
  get_msvc = λ kind nn. ok "msvc";
  marshal_json = λ hm. ok hm;
  unmarshal_conditions = λ b. ok [];
  get_stateful_set = λ nn. err (record { message = "no set"; not_found = true });
  get_deployment = λ nn. ok (record {
    namespace = "ns";
    template_labels = made [];
    conditions = record { ctype = "Available"; status = "True"; reason = "r"; message = "m" } ∷ [];
  });
  list_pods = λ labels ns. ok (record { pod_conditions = []; container_states = [] } ∷ []);
  new_ef = λ e text. new_error text;
}

abbrev builder : StatusConditions
builder = record { lt = 7; conditions = [] }

builders_agree_example :
    (listed_result (build_from_helm_msvc meta reader "Mongo" ("ns", "db") builder)
      ≡ Second.build_from_helm_msvc meta reader "Mongo" ("ns", "db") (as_listed builder))
    × (listed_result (build_from_statefulset meta reader ("ns", "db") builder)
        ≡ Second.build_from_statefulset meta reader ("ns", "db") (as_listed builder))
    × (listed_result (build_from_deployment meta reader ("ns", "db") builder)
        ≡ Second.build_from_deployment meta reader ("ns", "db") (as_listed builder))
builders_agree_example = builders_agree meta reader "Mongo" ("ns", "db") builder

abbrev complete : JobCondition
complete = record { ctype = "Complete"; status = "True" }

abbrev finished : KubeJob String
finished = record { conditions = complete ∷ []; succeeded = 1; failed = 0; rest = "job" }

abbrev events : List (WatchEvent String)
events =
    record { event_type = "ADDED"; object = some (record finished { succeeded = 0 }) }
    ∷ record { event_type = "MODIFIED"; object = some finished }
    ∷ []

watch_events_iff_example : (watch_events events ≡ answer (ok true)) ↔ Ends true events
watch_events_iff_example = watch_events_iff true events

abbrev jobs : JobClient Unit String String String
jobs = record {
  parse_files = λ name. ok name;
  execute = λ t vars. ok t;
  unmarshal_strict = λ b. ok finished;
  create = λ w ns j. (ok j, w);
  delete = λ w ns name. (none, w);
  get = λ w ns name. ok finished;
  new_ef = λ e text. new_error text;
  new_e = λ e. e;
}

has_completed-Agrees_example :
    (failed : Option JobCondition) × (succeeded : Option Bool) × (completed : Option Bool)
    × (has_failed jobs "ns" "job" tt ≡ ok failed)
    × (has_succeeded jobs "ns" "job" tt ≡ ok succeeded)
    × (has_completed jobs "ns" "job" tt ≡ ok completed)
    × Agrees failed succeeded completed
has_completed-Agrees_example = has_completed-Agrees jobs "ns" "job" tt finished refl
