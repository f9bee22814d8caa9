-- ===== src/Lib.antt =====
-- A verification library of the Zero Trust Workload Identity Manager, an operator that installs SPIRE on
-- OpenShift. It models the operator's own logic under pkg/controller and pkg/client: the collection and
-- publication of status conditions, the aggregation of the operands' statuses, the reconciliation of the
-- four operand resources, the validation of their configuration, the injection of proxies, and the
-- detection of drift.
--
-- How the program works: each controller reads its custom resource, publishes that it has started,
-- validates the configuration, creates or updates the Kubernetes objects of its component one after the
-- other, and in a deferred call publishes the conditions that it has collected, of which Ready is computed.
-- The controller of the ZeroTrustWorkloadIdentityManager (ZTWIM) resource reads the statuses of the four
-- operand resources, aggregates them, and tells OLM whether the operator may be upgraded.
--
-- Which file models which code:
--   Prelude       numbers, lists, texts and maps: the subset of Go's that the models use. int64 wraps
--                 (Prelude.Int); a map is an association list (Prelude.Dict).
--   Kube          conditions, errors, and the functions of k8s.io/apimachinery that the operator calls,
--                 as records of operations with the laws that they are documented to have.
--   Env           IsInCreateOnlyMode of pkg/controller/utils/utils.go.
--   Labels        pkg/controller/utils/labels.go: the labels of the objects, and which controller watches
--                 them.
--   Settings      what the generated configurations share. Json: the values that are marshalled to JSON.
--   Hashes        the hashes of pkg/controller/utils/utils.go; the hash of a map sorts its keys.
--   ApiClient     pkg/client/client.go: the updates that are retried, Exists and CreateOrUpdateObject.
--   Owners        the owner references of pkg/controller/utils/utils.go.
--   Errors        pkg/controller/utils/errors.go.
--   Status        pkg/controller/status/status.go: NewManager, AddCondition, SetReadyCondition,
--                 ApplyStatus, SetInitialReconciliationStatus. Status.Health: the health checks of it.
--                 Replay: the calls of AddCondition as the abstract view of a manager.
--   Ztwim         pkg/controller/zero-trust-workload-identity-manager/controller.go: Operand
--                 (getOperandStatus, classifyOperandState), Aggregate (aggregateOperandStatus and the
--                 conditions of Reconcile), Upgrade (updateOperatorCondition), Reconcile (Reconcile).
--   Objects       the steps that create, update or leave alone one object. The controllers write these
--                 texts once for each object; the model has each form once, with what differs as a record:
--                 Objects itself (service accounts, services, roles, webhooks), Apply (ConfigMaps and
--                 workloads), Sync (security context constraints, ClusterSPIFFEIDs), Routing (routes),
--                 Kinds (the texts that the controllers share), Comparable (the objects that the steps with
--                 nothing to keep write, and their comparison). Again: a second run. Sound: what the steps collect. Reach: what
--                 they write in create-only mode.
--   Reconciler    the frame that Reconcile is in each of the four operand controllers, and the checks that
--                 they share (Checks). Accounted, Published, Unread: what it publishes.
--   Server        pkg/controller/spire-server: Ttl and Federation (validation.go), Resources
--                 (service_account.go, service.go, rbac.go, webhook.go), Preserved (the fields that
--                 service.go and webhook.go take over from existing objects), Configs (configmap.go,
--                 statefulset.go, routes.go), Contents and Peers (the ConfigMaps that configmap.go
--                 generates; Peers is the federation in them), Checks and Controller (controller.go).
--   Agent         pkg/controller/spire-agent: the reconcile functions of all its files; Contents has the
--                 configuration that configmap.go generates, Volumes the volumes of daemonset.go.
--   CsiDriver     pkg/controller/spiffe-csi-driver: the same, Preserved (the fields that csi_driver.go
--                 and the two scc.go take over from existing objects), and Pods (the DaemonSet).
--   Oidc          pkg/controller/spire-oidc-discovery-provider: the same; Contents has the configuration that
--                 configmaps.go generates.
--   Validation    pkg/controller/utils/validation.go and url_validation.go (Issuer: the issuer without its
--                 protocol).
--   Proxy         pkg/controller/utils/proxy.go. Again: a second run, and what the containers mount.
--   Compare       pkg/controller/utils/resource_comparison.go: Container, Workload, Rules, Metadata.
--   Examples      the theorems at concrete inputs, with concrete functions for the parameters.
--
-- State: the manager of conditions is a record that is passed on; the cluster is a type W that the calls of
-- the API server take and return, so that a step is a function from a manager and a cluster to an error, a
-- manager and a cluster (Objects.Outcome). A Go error is a value of Kube.Error, nil is none.
--
-- Parameters: the API server (Objects.ObjectClient, Reconciler.ResourceCalls, the Calls of a controller),
-- equality.Semantic.DeepEqual, the validators of Kubernetes, url.Parse, the printing of durations, the
-- clock, retry.RetryOnConflict (ApiClient.Settled.Retry), and the order in which a loop over a Go map runs
-- (Status.Ranges): theorems about such a loop hold for every order, also where the two loops over the same
-- map run in different ones. json.MarshalIndent, path.Join, strings.ToLower and SHA-256 are parameters of
-- the generated ConfigMaps. The objects that the controllers generate are parameters of the steps, and so
-- are, for the steps, the functions that take fields over from an existing object; those are in
-- Server.Preserved and CsiDriver.Preserved. Server.Preserved.Written puts those of the SPIRE server in
-- their place, and Objects.Again the comparison of Compare.
--
-- The loops of the source run over a list or a map and are structural recursions. Only the printing of a
-- number takes fuel, a round for each digit: the number's successor, which is more than its digits.
--
-- Not modelled: the contents of the generated objects, but for the ConfigMaps, the DaemonSet of the CSI
-- driver and the volumes of the agents; the registration of watches, the cache of the client, main, and
-- generated or vendored code. Logging is left out.
pub mod Prelude
pub mod Kube
pub mod Status
pub mod Env
pub mod Labels
pub mod Settings
pub mod Hashes
pub mod ApiClient
pub mod Json
pub mod Ztwim
pub mod Server
pub mod Proxy
pub mod Compare
pub mod Examples
pub mod Owners
pub mod Objects
pub mod Validation
pub mod Errors
pub mod Reconciler
pub mod Agent
pub mod CsiDriver
pub mod Oidc
