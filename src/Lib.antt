-- ===== src/Lib.antt =====
-- NVMesh Kubernetes operator: a model of the controllers under pkg/, and what they do.
--
-- The operator reconciles one custom resource, NVMesh, which describes a storage cluster. A cycle
-- (`Reconcile` in pkg/controllers/nvmesh_controller.go) reads the resource, fills in defaults, validates it,
-- makes sure of a service account, handles the finalizer, reconciles the three components (management, core,
-- CSI) by creating or removing the objects of a directory of YAML files, removes old statuses of actions,
-- handles the pending actions, and writes the outcome into the status. A deleted resource is uninstalled stage
-- by stage; the statuses of the stages in the resource tell a later cycle where to go on.
--
-- How the code is modelled. The outside services (the API client, the resource files and their decoder, the
-- clock, the events) are the record Client of Kube/Services.antt, over a type of worlds; the MongoDB driver and the
-- retry helper of client-go stand beside it in Operator.antt. A call answers and changes the world, so other
-- clients may act at every call. A Go function that calls them is an action (Kube/Actions.antt): a state goes
-- in, and a result and a state come out, where the result is a value or a panic. A Go error beside a result is an
-- `Option Err` or a `Result`. A function that changes the resource in memory is an action on a Session
-- (Operator.antt), the resource and the world. Logging is left out. Loops run over lists, by structural recursion,
-- so nothing here needs fuel; the one loop without a bound, in node_labels.go, is a relation.
--
-- The files, with the code each is about:
--   Prelude, Prelude/*       shared names: Boolean tests, lists, text, maps with string keys, decimals
--   Api                      pkg/api/v1/nvmesh_types.go
--   Conditions               pkg/conditions/conditions.go
--   Kube, Kube/*             Kubernetes objects, errors, actions, services, and rules for what an action keeps
--   Slices                   the helpers on slices of strings
--   Yaml                     pkg/yamlutils/yamlutils.go
--   Jobs, Jobs/*             pkg/controllers/jobs.go and the secrets of validation.go
--   Objects, Resources       pkg/controllers/ctrl_utils.go; Objects/Quiet has the hypotheses on the API server
--   Unstructured, .../*      the unstructured objects of pkg/controllers/ctrl_utils.go, with the dynamic client and
--                            discovery as a record Dynamic
--   Operator                 the reconciler and its services
--   Status                   pkg/controllers/status_updater.go
--   Tasks, Actions           pkg/controllers/nvmesh_actions.go
--   Stages, Uninstall, Nodes pkg/controllers/uninstall.go
--   Finalizer                pkg/controllers/finalizer.go
--   NodeLabels               pkg/controllers/node_labels.go
--   CollectLogs              pkg/controllers/collect_logs.go
--   Core, Core/*             pkg/controllers/core_controller.go
--   Csi                      pkg/controllers/csi_controller.go
--   Mgmt, Mgmt/*             pkg/controllers/mgmt_controller.go
--   Components, Components/* the operator with its three components, and what these promise
--   Reflect, Reflect/*       pkg/reflectutils/object_json_path.go
--   Reconcile                pkg/controllers/nvmesh_controller.go and isValid of validation.go
--   Tests                    a small API server, and the theorems applied in it
--
-- What is not modelled: main.go, events.go and SetupWithManager (calls of libraries), and the generated deep
-- copies. No other code of the operator calls reconcileUnstructuredObjects, so Reconcile has no watcher to stop.
pub mod Prelude
pub mod Api
pub mod Conditions
pub mod Kube
pub mod Slices
pub mod Jobs
pub mod Operator
pub mod Status
pub mod Tests
pub mod Tasks
pub mod Stages
pub mod Nodes
pub mod NodeLabels
pub mod Uninstall
pub mod Finalizer
pub mod CollectLogs
pub mod Actions
pub mod Reconcile
pub mod Core
pub mod Mgmt
pub mod Resources
pub mod Unstructured
pub mod Yaml
pub mod Objects
pub mod Reflect
pub mod Csi
pub mod Components
