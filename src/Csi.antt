-- ===== src/Csi.antt =====
-- pkg/controllers/csi_controller.go: the CSI driver's objects. The maps of a config map are never nil.
pub mod Settled
use nvmesh_k8s_operator.Prelude.{
  String, Bool, true, false, Option, none, some, List, [], ◌∷◌, ◌==◌, if◌then◌else◌, concat, map,
}
use nvmesh_k8s_operator.Prelude.Dict.{Dict, put}
use nvmesh_k8s_operator.Api.{NvMesh}
use nvmesh_k8s_operator.Kube.{
  Ran, returned, panicked, Err, message, Result, ok, err, Container, PodSpec, Workload, Subject,
  Body, stateful_set, daemon_set, config_map, role_binding, cluster_role_binding, Obj,
}
use nvmesh_k8s_operator.Jobs.{get_image_pull_policy}
use nvmesh_k8s_operator.Objects.{Component}
use nvmesh_k8s_operator.Objects.Parts.{
  first_container, with_body, unchanged, map_ran, answer, with_stateful_set, with_daemon_set,
}
use nvmesh_k8s_operator.Reflect.Workloads.{
  stateful_set_value, daemon_set_value, fields_differ, image_path, pull_policy_path, replicas_path,
}

abbrev csi_stateful_set_name : String
csi_stateful_set_name = "nvmesh-csi-controller"

abbrev csi_daemon_set_name : String
csi_daemon_set_name = "nvmesh-csi-node-driver"

-- getCSIServiceAccountName
abbrev csi_service_account_name : String
csi_service_account_name = "nvmesh-csi"

unfoldable pub get_csi_full_image_name : NvMesh → String
get_csi_full_image_name cr =
    let given = cr.spec.csi.image_registry in
    let registry = if given == "" then "excelero" else given in
    concat (registry ∷ "/" ∷ "nvmesh-csi-driver" ∷ ":" ∷ cr.spec.csi.version ∷ [])

abbrev missing_version : Err
missing_version = message "Missing NVMesh CSI Driver Version (NVMesh.Spec.CSI.Version)"

-- What both workloads are given: the account, and the first container's image and pull policy.
unfoldable pub init_csi_template : NvMesh → Workload → Ran Workload
unfolding get_csi_full_image_name get_image_pull_policy
init_csi_template cr w =
    first_container
      (λ c. record c {
        image = get_csi_full_image_name cr;
        image_pull_policy = get_image_pull_policy cr;
      })
      (record w {
        template = record (w.template) { service_account_name = csi_service_account_name };
      })

unfoldable pub init_csi_node_driver_daemon_set : NvMesh → Workload → Ran (Result Body)
unfolding init_csi_template
init_csi_node_driver_daemon_set cr ds =
    if cr.spec.csi.version == ""
    then returned (err missing_version)
    else map_ran (λ w. ok (daemon_set w)) (init_csi_template cr ds)

abbrev set_replicas : NvMesh → Workload → Workload
set_replicas cr w = record w { replicas = some cr.spec.csi.controller_replicas }

unfoldable pub init_csi_controller_stateful_set : NvMesh → Workload → Ran (Result Body)
unfolding init_csi_template
init_csi_controller_stateful_set cr ss =
    if cr.spec.csi.version == ""
    then returned (err missing_version)
    else map_ran (λ w. ok (stateful_set (set_replicas cr w))) (init_csi_template cr ss)

unfoldable pub init_csi_config_map : NvMesh → Dict String → Dict String
init_csi_config_map cr fields =
    put (put fields "management.protocol" "https") "management.servers"
      (concat ("nvmesh-management-gui." ∷ cr.meta.namespace ∷ ".svc.cluster.local:4000" ∷ []))

abbrev in_namespace : String → Subject → Subject
in_namespace ns s = record s { namespace = ns }

-- the first subject is the driver's account
abbrev name_first : List Subject → Ran (List Subject)
name_first [] = panicked
name_first (s ∷ subjects) = returned (record s { name = csi_service_account_name } ∷ subjects)

-- initRoleBinding and initClusterRoleBinding
unfoldable pub init_subjects : NvMesh → List Subject → Ran (List Subject)
init_subjects cr subjects = name_first (map (in_namespace cr.meta.namespace) subjects)

-- The switch of InitObject, on the type and the name.
unfoldable pub init_csi_body : NvMesh → (name : String) → Body → Ran (Result Body)
unfolding init_csi_controller_stateful_set init_csi_node_driver_daemon_set init_csi_config_map
    init_subjects
init_csi_body cr name (stateful_set ss) =
    if name == csi_stateful_set_name
    then init_csi_controller_stateful_set cr ss
    else unchanged (stateful_set ss)
init_csi_body cr name (daemon_set ds) =
    if name == csi_daemon_set_name
    then init_csi_node_driver_daemon_set cr ds
    else unchanged (daemon_set ds)
init_csi_body cr name (config_map fields) = unchanged (config_map (init_csi_config_map cr fields))
init_csi_body cr name (role_binding subjects) =
    map_ran (λ l. ok (role_binding l)) (init_subjects cr subjects)
init_csi_body cr name (cluster_role_binding subjects) =
    map_ran (λ l. ok (cluster_role_binding l)) (init_subjects cr subjects)
init_csi_body cr name b = unchanged b

unfoldable pub should_update_csi_node_driver_daemon_set : (expected ds : Workload) → Ran Bool
unfolding fields_differ daemon_set_value
should_update_csi_node_driver_daemon_set expected ds =
    fields_differ (image_path ∷ pull_policy_path ∷ []) (daemon_set_value 0 expected)
      (daemon_set_value 2 ds)

unfoldable pub should_update_csi_controller_stateful_set : (expected ss : Workload) → Ran Bool
unfolding fields_differ stateful_set_value
should_update_csi_controller_stateful_set expected ss =
    fields_differ (image_path ∷ replicas_path ∷ []) (stateful_set_value 0 expected)
      (stateful_set_value 2 ss)

-- The switch of ShouldUpdateObject, on the type and the name of the object that was found.
unfoldable pub should_update_csi_body : (name : String) → (expected found : Body) → Ran Bool
unfolding should_update_csi_controller_stateful_set should_update_csi_node_driver_daemon_set
should_update_csi_body name expected (stateful_set ss) =
    if name == csi_stateful_set_name
    then with_stateful_set (λ e. should_update_csi_controller_stateful_set e ss) expected
    else returned false
should_update_csi_body name expected (daemon_set ds) =
    if name == csi_daemon_set_name
    then with_daemon_set (λ e. should_update_csi_node_driver_daemon_set e ds) expected
    else returned false
should_update_csi_body name expected _ = returned false

-- NVMeshCSIReconciler as a component.
unfoldable pub csi_component : {W : Type 0} → Component W
unfolding init_csi_body should_update_csi_body
csi_component = record {
  init_object = λ cr o. with_body o (init_csi_body cr o.name o.body);
  should_update_object = λ cr expected found.
      answer expected (should_update_csi_body found.name expected.body found.body);
}
