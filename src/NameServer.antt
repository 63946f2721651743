-- ===== src/NameServer.antt =====
-- lib/nameserver/main.go: the client of the nameserver, which the controllers of domains and regions
-- call. net/http and encoding/json are the record `Http`.
pub mod Answering
use Prim.Native.String.{◌++◌ as ◌<>◌}
use kl_internal_operator.Base.{ℕ, String, Option, none, some, List, [], ◌∷◌}
use kl_internal_operator.Kube.{Error, Result, ok, err, error_of}
use kl_internal_operator.Domain.{Nameserver}

-- The struct `NameServer`.
pub record NameServer : Type 0 where
  pub endpoint : String
  pub user : String
  pub password : String

-- The maps that are marshalled.
pub data Payload : Type 0 where
  domain_records : String → List String → Payload
  node_records : String → String → String → List String → Payload

-- A client with the timeout in seconds, 0 for none, does a request `Q` in the world `W`. The answer
-- `R` is any response, also one whose status tells an error; only a request that got none is an
-- error. `read_all` reads its body, and `answers` is what
-- json.Unmarshal leaves in the addresses, its error being only printed.
pub record Http (W Q R B : Type 0) : Type 0 where
  pub marshal : Payload → Result B
  pub new_request : String → String → Option B → Result Q
  pub set_basic_auth : Q → String → String → Q
  pub send : W → ℕ → Q → Result R × W
  pub read_all : R → Result B
  pub answers : B → List String

unfoldable pub new_client : String → String → String → NameServer
new_client endpoint user password = record { endpoint = endpoint; user = user; password = password }

module _ {W Q R B : Type 0} (h : Http W Q R B) (n : NameServer) where
  -- `SetBasicAuth`, and `Do` of a client with the timeout.
  abbrev pub send_request : ℕ → Result Q → W → Result R × W
  send_request timeout (err e) w = (err e, w)
  send_request timeout (ok req) w = h.send w timeout (h.set_basic_auth req n.user n.password)

  -- The body of a POST.
  abbrev pub post : String → Result B → W → Result R × W
  post url (err e) w = (err e, w)
  post url (ok data_bytes) w = send_request 5 (h.new_request "POST" url (some data_bytes)) w

  -- `_, err = client.Do(req); return err`
  abbrev pub dropping : Result R × W → Option Error × W
  dropping (r, w) = (error_of r, w)

  unfoldable pub upsert_domain : W → String → List String → Option Error × W
  upsert_domain w domain_name a_records =
      dropping
        (post (n.endpoint <> "/upsert-domain") (h.marshal (domain_records domain_name a_records)) w)

  unfoldable pub upsert_node_ips : W → String → String → String → List String → Option Error × W
  upsert_node_ips w region account_name cluster_name ips = dropping (
      post (n.endpoint <> "/upsert-node-ips")
        (h.marshal (node_records region account_name cluster_name ips)) w)

  unfoldable pub delete_domain : W → String → Option Error × W
  delete_domain w domain_name = dropping (
      send_request 0
        (h.new_request "DELETE" (n.endpoint <> ("/delete-domain/" <> domain_name)) none) w)

  unfoldable pub get_record : W → String → Result R × W
  get_record w domain_name =
      send_request 0 (h.new_request "GET" (n.endpoint <> ("/get-records/" <> domain_name)) none) w

  unfoldable pub get_region_domain : W → String → String → Result R × W
  get_region_domain w account_name region_id =
      send_request 0
        (h.new_request "GET"
          (n.endpoint <> ("/get-region-domain/" <> (account_name <> ("/" <> region_id)))) none)
        w

  -- The reading of an answer in `reconUpdateRecord` of the controller of domains.
  abbrev pub parsed : Result B → Result (List String)
  parsed (err e) = err e
  parsed (ok body) = ok (h.answers body)

  abbrev pub read_answers : Result R → Result (List String)
  read_answers (err e) = err e
  read_answers (ok res) = parsed (h.read_all res)

  -- The client as the controller of domains uses it; a read of the records leaves the world.
  unfoldable pub as_nameserver : Nameserver W
  as_nameserver = record {
    get_answers = λ w domain_name. read_answers (get_record w domain_name).0;
    upsert_domain = upsert_domain;
    delete_domain = delete_domain;
  }
