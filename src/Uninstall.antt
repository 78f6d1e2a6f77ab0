-- ===== src/Uninstall.antt =====
-- pkg/controllers/uninstall.go: the stages of `uninstallCluster`. They read the resource and act on
-- the world. The jobs that they run are in the child Jobs.
pub mod Jobs
pub mod Nodes
pub mod Cluster
pub mod Order
pub mod Refusal
use nvmesh_k8s_operator.Prelude.{
  String, Bool, true, false, Option, none, some, List, [], ◌∷◌, ltb, length, if◌then◌else◌, ◌||◌,
}
use nvmesh_k8s_operator.Api.{NvMesh}
use nvmesh_k8s_operator.Kube.{
  Client, Act, pure, panic, call, ◌>>=◌, ◌>>◌, or_return, Err, Result, ok, err, CtrlResult, Outcome,
  do_not_requeue, requeue_in, Obj, Body, Subject, Pod, service_account, role_binding, other,
}
use nvmesh_k8s_operator.Jobs.{registry_cred_secret_name, cluster_service_account_name}
use nvmesh_k8s_operator.Jobs.Wait.{wait_for_job_to_finish}
use nvmesh_k8s_operator.Jobs.Delete.{delete_job}
use nvmesh_k8s_operator.Objects.{Component, make_sure_object_removed}
use nvmesh_k8s_operator.Resources.{remove_objects_from_dir}
use nvmesh_k8s_operator.Operator.{Operator}

abbrev pub clear_db_job_name : String
clear_db_job_name = "nvmesh-clear-db-job"

abbrev pub delete_on_uninstall_label_key : String
delete_on_uninstall_label_key = "nvmesh.excelero.com/delete-on-uninstall"

abbrev pub core_assets_location : String
core_assets_location = "resources/nvmesh-core"

abbrev pub csi_assets_location : String
csi_assets_location = "resources/csi/"

abbrev pub mgmt_assets_location : String
mgmt_assets_location = "resources/management/"

abbrev pub mongo_db_assets_location : String
mongo_db_assets_location = "resources/mongodb"

-- `return DoNotRequeue(), err`
abbrev pub not_again : {W : Type 0} → Act W (Option Err) → Act W Outcome
not_again m = m >>= λ e. pure (do_not_requeue, e)

-- getClusterServiceAccount and getNVMeshClusterRoleAndRoleBinding of ctrl_utils.go
unfoldable pub get_cluster_service_account : NvMesh → Obj
get_cluster_service_account cr = record {
  name = cluster_service_account_name;
  namespace = cr.meta.namespace;
  labels = [];
  owner = none;
  body = service_account (registry_cred_secret_name ∷ []);
}

unfoldable pub get_nvmesh_cluster_role : Obj
get_nvmesh_cluster_role = record {
  name = "nvmesh-cluster-role";
  namespace = "";
  labels = [];
  owner = none;
  body = other "Role" "use securitycontextconstraints privileged";
}

unfoldable pub get_nvmesh_cluster_role_binding : NvMesh → Obj
get_nvmesh_cluster_role_binding cr = record {
  name = "nvmesh-cluster-rb";
  namespace = "";
  labels = [];
  owner = none;
  body = role_binding (
      record {
        kind = "ServiceAccount";
        name = cluster_service_account_name;
        namespace = cr.meta.namespace;
      }
      ∷ []);
}

module _ {W : Type 0} (op : Operator W) where
  unfoldable pub remove_core : NvMesh → Act W (Option Err)
  unfolding remove_objects_from_dir
  remove_core cr = remove_objects_from_dir op.client cr op.core core_assets_location true

  unfoldable pub remove_csi : NvMesh → Act W (Option Err)
  unfolding remove_objects_from_dir
  remove_csi cr = remove_objects_from_dir op.client cr op.csi csi_assets_location true

  unfoldable pub remove_management : NvMesh → Act W (Option Err)
  unfolding remove_objects_from_dir
  remove_management cr = remove_objects_from_dir op.client cr op.mgmt mgmt_assets_location true

  -- removeMongoDB of mgmt_controller.go, and removeMongo, which calls it
  unfoldable pub remove_mongo : NvMesh → Act W (Option Err)
  unfolding remove_objects_from_dir
  remove_mongo cr = remove_objects_from_dir op.client cr op.mgmt mongo_db_assets_location false

  unfoldable pub remove_all_workloads_except_mongo : NvMesh → Act W Outcome
  unfolding remove_core remove_csi remove_management
  remove_all_workloads_except_mongo cr =
      not_again (or_return (remove_core cr) (or_return (remove_csi cr) (remove_management cr)))

  -- The selector of `waitForWorkloadsToFinish` is a constant that `labels.NewRequirement` accepts.
  unfoldable pub workloads_left : Result (List Pod) → Outcome
  workloads_left (err e) = (do_not_requeue, some e)
  workloads_left (ok pods) =
      if ltb 0 (length pods) then (requeue_in 1, none) else (do_not_requeue, none)

  unfoldable pub wait_for_workloads_to_finish : Act W Outcome
  unfolding workloads_left
  wait_for_workloads_to_finish = do
    pods ← call (
        op.client.list_pods "nvmesh.excelero.com/component"
          ("client" ∷ "target" ∷ "mcs-agent" ∷ "csi-node-driver" ∷ []))
    pure (workloads_left pods)

  -- A failed job is only logged.
  unfoldable pub wait_for_clear_db_to_finish : NvMesh → Act W Outcome
  unfolding wait_for_job_to_finish delete_job
  wait_for_clear_db_to_finish cr = do
    (result, e) ← wait_for_job_to_finish op.client cr clear_db_job_name
    if result.requeue
        then pure (result, none)
        else not_again (delete_job op.client cr.meta.namespace clear_db_job_name)

  abbrev pub again_on_error : Act W (Option Err) → Act W Outcome → Act W Outcome
  again_on_error m k = m >>= λ e. elim e [ some x ↦ pure (requeue_in 1, some x) | none ↦ k ]

  unfoldable pub delete_cluster_service_account : NvMesh → Act W Outcome
  unfolding make_sure_object_removed get_cluster_service_account get_nvmesh_cluster_role
      get_nvmesh_cluster_role_binding
  delete_cluster_service_account cr =
      again_on_error (make_sure_object_removed op.client cr (get_cluster_service_account cr)) (
        again_on_error (make_sure_object_removed op.client cr get_nvmesh_cluster_role) (
          again_on_error
            (make_sure_object_removed op.client cr (get_nvmesh_cluster_role_binding cr))
            (pure (do_not_requeue, none))))

  -- the loop of `deletePVCs`: a failed deletion is only logged
  unfoldable pub delete_claims : NvMesh → List Obj → Act W (Unit {0})
  unfolding make_sure_object_removed
  delete_claims cr [] = pure tt
  delete_claims cr (claim ∷ claims) = do
    _ ← make_sure_object_removed op.client cr claim
    delete_claims cr claims

  unfoldable pub delete_found_claims : NvMesh → Result (List Obj) → Act W Outcome
  unfolding delete_claims
  delete_found_claims cr (err e) =
      pure (do_not_requeue, some (Err.wrap e "Failed to list PersistentVolumeClaims to delete"))
  delete_found_claims cr (ok claims) = do _ ← delete_claims cr claims; pure (do_not_requeue, none)

  -- A refused requirement is a nil pointer, which is followed.
  unfoldable pub delete_pvcs : NvMesh → Act W Outcome
  unfolding delete_found_claims
  delete_pvcs cr = elim (op.client.exists_requirement delete_on_uninstall_label_key ("" ∷ [])) [
    | err _ ↦ panic
    | ok label ↦ call (op.client.list_claims label) >>= λ claims. delete_found_claims cr claims
  ]
