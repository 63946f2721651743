-- ===== src/Lib.antt =====
-- The Kubernetes operator kl-internal-operator: its controllers bring accounts, edges, node pools
-- and worker nodes to the state that their resources ask for. A reconciliation is one run of a
-- controller's `Reconcile` over a fetched resource: a chain of steps, each of which may write to the
-- API server, and the first that must not proceed ends the run.
--
-- The parts and their files:
--   Scale            lib/rcalculate/main.go: whether a pool adds, deletes or tags a node. The state
--                    is `Input`, whose two caches the methods fill; `calculate` is `Calculate`.
--   StepResult       lib/operator.v2/step-result/step.go: the answer of a step; `then_proceed` is
--                    the `if step := ...; !step.ShouldProceed()` of the controllers.
--   Operator         lib/operator.v2/main.go and container-message.go: the status that every
--                    resource carries, and the request's scratch map.
--   Request          lib/operator.v2/request.go: the steps that all controllers share. The state is
--                    `State`: the object in memory, the world, and the scratch map.
--   Controller       the order of the steps in the `Reconcile` methods of controllers/, once, with
--                    the check names, the finalizer and the own steps of a controller as arguments;
--                    Preparing has reconciliations of one resource, one after the other.
--   NodePool         controllers/infra/nodepool_controller.go, with the data of apis/infra/v1; its
--                    step asks Resources for the use and Scale for the action.
--   CloudProvider    controllers/infra/cloudprovider_controller.go
--   Edge             controllers/infra/edge_controller.go
--   WorkerNode       controllers/infra/workernode_controller.go and types.go, lib/terraform/main.go
--   Domain           controllers/common/domain_controller.go
--   Region           controllers/common/region_controller.go
--   Account          controllers/common/account/account_controller.go: its proxy configuration is
--                    what the services of Device read
--   Device           controllers/common/device_controller.go
--   Management       apis/management/v1, and what accounts and devices exchange
--   Conditions       lib/conditions/main.go: `Patch`, which the failing steps of Request use, and
--                    `FromPod` and `FromResource`
--   StatusConditions lib/functions/conditions.go: both builders of conditions, each with
--                    the conditions that its own text makes
--   Jobs             lib/job-helpers.go
--   NameServer       lib/nameserver/main.go: it fills the interface `Nameserver` of Domain
--   Cluster          lib/cluster/main.go: commands against a cluster, over any operating system
--   Linkerd          lib/linkerd/main.go, by the commands of Cluster
--   Startup          main.go and env/env.go
--   Watches          SetupWithManager of the controllers: which resource a changed object wakes
--   OlderOperator    lib/operator/main.go: the request before lib/operator.v2
--   Agent            agent/internal/app/main.go: the loop over the messages
--   KubectlApply     lib/functions/kubectl.go: how an object is written over the stored one
--   RawJson          lib/raw-json/main.go: the message of a status
--   Functions        lib/functions: maps, finalizers and owners; Encoding has JSON, hashes and ids
--   Resources        lib/kresource/main.go: the totals over kubectl's answer
--   Base, Exec, GoMap, Kube    shared: integers, Go's maps, panics, and Kubernetes data
--   Examples         the properties at concrete inputs
--
-- How the code is read. A method that changes its receiver or a shared object gives the new state;
-- a Go error is a value in the result, and a panic is the outcome `panicked`, with what was written
-- before it. An int is an integer with the wrap-around of 64 bits; the length of a slice is below
-- 2 ^ 63. A map is nil or made, an association list whose order stands for that of `range`. Times
-- are nanoseconds. Every loop is a structural recursion over the list that the code ranges over, so
-- there is no fuel, except the search of a free index, which has as many rounds as there are nodes,
-- the draw of a proxy port, whose rounds the code counts and ends after 3002, and the attempts of
-- the agent, which are MaxRetries. The endless loop of the agent is its run over any list of reads.
--
-- Parameters. The API server, the clock and kubectl are the record `Client` over any world, and
-- what a controller asks of the cluster besides is a record of its own (`Cluster`, `Secrets`,
-- `EdgeCluster`, `Nameserver`, `RegionCluster`, `DeviceCluster`, `AccountCluster`, `NodeCluster`);
-- what `KubectlApply` calls is `ApplyClient`, the agent, `Outside`, the jobs, `JobClient`, the client
-- of the nameserver, `Http`, the builders of conditions, `ApiReader`, `main`, `Machine`,
-- and the commands of Cluster and Linkerd, `Os`. `encoding/json` is `Json`, Go's string functions are
-- `Strings`, pkg/api/meta is `Meta` in StatusConditions, and elsewhere `meta.FindStatusCondition`,
-- with `controllerutil.AddFinalizer` and `RemoveFinalizer`, is a field of `Client`. What is relied on
-- of them are named hypotheses: `FindsFirst`, `AddsFinalizer`, `Keeps`, `KeepsStrings`,
-- `RemovesFinalizer`, `DrawsBelow`, `LosesNone`, `Deploys`, `Counters`, `Fits`, `Stores` and
-- `RootFiles`, of which Examples has instances, and `FindsSet`.
--
-- Not modelled: `reconWGDomain` of the account controller, which nothing calls, and what only calls
-- other systems (lib/mongo, lib/redis, lib/templates), logs, or is
-- generated. Of the modelled files: the deep copies of lib/raw-json/main.go, and the registration of
-- watches with the library.
pub mod Base
pub mod Exec
pub mod GoMap
pub mod Kube
pub mod Functions
pub mod Conditions
pub mod StatusConditions
pub mod RawJson
pub mod StepResult
pub mod Operator
pub mod Request
pub mod Controller
pub mod Resources
pub mod NodePool
pub mod Scale
pub mod CloudProvider
pub mod Edge
pub mod Domain
pub mod Agent
pub mod KubectlApply
pub mod Jobs
pub mod NameServer
pub mod Cluster
pub mod Linkerd
pub mod Watches
pub mod Startup
pub mod OlderOperator
pub mod Region
pub mod Management
pub mod Account
pub mod Device
pub mod WorkerNode
pub mod Examples
