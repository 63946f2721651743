-- ===== src/WorkerNode/Jobs.antt =====
-- controllers/infra/workernode_controller.go and types.go: the jobs that create and delete a node.
-- lib/terraform/main.go: the outputs of the node, over the bytes that terraform prints.
use Prim.Native.String.{◌++◌ as ◌<>◌}
use kl_internal_operator.Base.{
  String, Bool, true, false, Option, none, some, List, [], ◌∷◌, ◌==◌, string_eq, nat_beq,
  if◌then◌else◌,
}
use kl_internal_operator.Base.Integers.{ℤ}
use kl_internal_operator.GoMap.{GoMap, made, get, len}
use kl_internal_operator.Kube.{Error, Result, ok, err, ObjectMeta, OwnerReference, new_error}
use kl_internal_operator.Functions.{as_owner, or_zero}
use kl_internal_operator.Operator.{Object}
use kl_internal_operator.NodePool.{WorkerNodeSpec}

pub record AwsNode : Type 0 where
  pub node_id : String
  pub region : String
  pub instance_type : String
  pub vpc : String

pub record DoNode : Type 0 where
  pub region : String
  pub size : String
  pub node_id : String
  pub image_id : String

-- `awsConfig` and `doConfig` of types.go, of the version v1.
pub data NodeConfig : Type 0 where
  aws_config : (action access_key access_secret account_name : String) → AwsNode → NodeConfig
  do_config : (action provider api_token account_name : String) → DoNode → NodeConfig

pub record KlConf : Type 0 where
  pub store_path : String
  pub tf_templates : String
  pub ssh_path : String

-- The arguments of the template of the job.
pub record NodeJob : Type 0 where
  pub name : String
  pub namespace : String
  pub node_config : NodeConfig
  pub kl_config : KlConf
  pub provider : String
  pub owner_refs : List OwnerReference

-- What the controller reads of the cluster and asks of it and of the libraries. `get_secret` gives
-- the data; `apply_job` encodes the two configurations, parses the template and applies it;
-- `output_bytes` runs terraform in a directory, and `exec_cmd` runs a command.
pub record NodeCluster (W : Type 0) : Type 0 where
  pub get_secret : W → String → String → Result (GoMap String)
  pub get_node : W → String → Result ObjectMeta
  pub update_node : W → ObjectMeta → Option Error × W
  pub delete_node : W → ObjectMeta → Option Error × W
  pub get_job : W → String → Option Error
  pub apply_job : W → NodeJob → Option Error × W
  pub delete_job : W → String → Option Error × W
  pub output_bytes : W → String → Result String
  pub parse_outputs : String → Result (GoMap String)
  pub parse_aws : String → Result AwsNode
  pub parse_do : String → Result DoNode
  pub exec_cmd : W → String → Option Error × W
  pub join_path : List String → String
  pub trim_space : String → String
  pub print : ℤ → String
  pub env : KlConf

abbrev pub main_ns : String
main_ns = "kl-core"

abbrev pub m_node : String → String
m_node name = "kl-byoc-" <> name

abbrev pub job_name : Bool → String → String
job_name true name = "create-node-" <> name
job_name false name = "delete-node-" <> name

abbrev action : Bool → String
action true = "create"
action false = "delete"

module _ {W : Type 0} (k : NodeCluster W) where
  -- terraform.GetOutputs: no output is an error.
  unfoldable pub get_outputs : W → String → Result (GoMap String)
  get_outputs w dir = elim (k.output_bytes w dir) [
    | err e ↦ err e
    | ok out ↦ elim (k.parse_outputs out) [
      | err e ↦ err e
      | ok resp ↦
          if nat_beq (len resp) 0 then err (new_error "err: no tf outputs found") else ok resp
    ]
  ]

  -- terraform.GetOutput: a missing key reads as "".
  unfoldable pub get_output : W → String → String → Result String
  get_output w dir key = elim (get_outputs w dir) [
    | err e ↦ err e
    | ok resp ↦ ok (or_zero "" (get resp key))
  ]

  unfoldable pub get_tf_path : {V B : Type 0} → Object WorkerNodeSpec V B → String
  get_tf_path o = k.join_path (
      k.env.store_path
      ∷ o.spec.account_name
      ∷ o.spec.provider
      ∷ o.spec.region
      ∷ m_node o.metadata.name
      ∷ o.spec.provider
      ∷ [])

module _ {W V B : Type 0} (k : NodeCluster W) where
  aws_node_config : Bool → Object WorkerNodeSpec V B → GoMap String → Result NodeConfig
  aws_node_config create o data' = elim (get data' "accessKey") [
    | none ↦ err (new_error "AccessKey not provided in provider secret")
    | some access_key ↦ elim (get data' "accessSecret") [
      | none ↦ err (new_error "AccessSecret not provided in provider secret")
      | some access_secret ↦ elim (k.parse_aws o.spec.config) [
        | err e ↦ err e
        | ok node ↦ ok (
            aws_config (action create) access_key access_secret o.spec.account_name
              (record node { node_id = m_node o.metadata.name; region = o.spec.region }))
      ]
    ]
  ]

  do_node_config : Bool → Object WorkerNodeSpec V B → GoMap String → Result NodeConfig
  do_node_config create o data' = elim (get data' "apiToken") [
    | none ↦ err (new_error "apiToken not provided in provider secret")
    | some api_token ↦ elim (k.parse_do o.spec.config) [
      | err e ↦ err e
      | ok node ↦ ok (
          do_config (action create) o.spec.provider api_token o.spec.account_name
            (record node { node_id = m_node o.metadata.name; region = o.spec.region }))
    ]
  ]

  -- The `switch` on the provider.
  unfoldable pub node_config : Bool → Object WorkerNodeSpec V B → GoMap String → Result NodeConfig
  unfolding aws_node_config do_node_config
  node_config create o data' =
      if o.spec.provider == "aws"
      then aws_node_config create o data'
      else if o.spec.provider == "do"
      then do_node_config create o data'
      else err (new_error ("unknown provider " <> (o.spec.provider <> " found")))

  -- `getJobCrd`, up to the encoding of its configurations and the template.
  unfoldable pub get_job_crd : Bool → Object WorkerNodeSpec V B → W → Result NodeJob
  get_job_crd create o w = elim (k.get_secret w main_ns o.spec.provider_name) [
    | err e ↦ err e
    | ok provider_sec ↦ elim (node_config create o provider_sec) [
      | err e ↦ err e
      | ok config ↦ ok (record {
        name = job_name create o.metadata.name;
        namespace = main_ns;
        node_config = config;
        kl_config = k.env;
        provider = o.spec.provider;
        owner_refs = as_owner o.metadata (true ∷ []) ∷ [];
      })
    ]
  ]

-- The labels and annotations that a worker node is to have; `read` gives what json.Unmarshal of the
-- configuration leaves under a key.
unfoldable pub node_ensured_labels :
    {V B : Type 0} → (ℤ → String) → Object WorkerNodeSpec V B → GoMap String
node_ensured_labels print o = made (
    ("kloudlite.io/account-node.name", o.metadata.name)
    ∷ ("kloudlite.io/account.name", o.spec.account_name)
    ∷ ("kloudlite.io/region", o.spec.edge_name)
    ∷ ("kloudlite.io/node-pool", o.spec.pool)
    ∷ ("kloudlite.io/node-index", print o.spec.index)
    ∷ ("kloudlite.io/provider.name", o.spec.provider_name)
    ∷ [])

unfoldable pub node_ensured_annotations :
    {V B : Type 0} → (String → String → String) → Object WorkerNodeSpec V B → GoMap String
node_ensured_annotations read o =
    let instance_type =
      if o.spec.provider == "aws"
      then read o.spec.config "instanceType"
      else if o.spec.provider == "do"
      then read o.spec.config "size"
      else "" in
    let suffix = if instance_type == "" then "" else "/" <> instance_type in
    made (("instanceType", o.spec.provider <> ("/" <> (o.spec.region <> suffix))) ∷ [])
