-- ===== src/Uninstall/Cluster.antt =====
-- `uninstallCluster` of pkg/controllers/uninstall.go: the stages in their order, and what follows the
-- last one.
use nvmesh_k8s_operator.Prelude.{String, true, Option, none, some, List, [], ◌∷◌, if◌then◌else◌}
use nvmesh_k8s_operator.Api.{NvMesh}
use nvmesh_k8s_operator.Kube.{Act, pure, ◌>>=◌, Outcome, do_not_requeue}
use nvmesh_k8s_operator.Tasks.{set_action_complete}
use nvmesh_k8s_operator.Stages.{Task, uninstall_action, run_stages}
use nvmesh_k8s_operator.Operator.{Operator, Session, with_cr, modify_cr, get_cr}
use nvmesh_k8s_operator.Uninstall.{
  not_again, clear_db_job_name, remove_mongo, remove_all_workloads_except_mongo,
  wait_for_workloads_to_finish, wait_for_clear_db_to_finish, delete_cluster_service_account,
  delete_pvcs,
}
use nvmesh_k8s_operator.Uninstall.Jobs.{run_clear_db_job}
use nvmesh_k8s_operator.Uninstall.Nodes.{uninstall_cluster_nodes}

-- `Spec.CSI.Disabled = true`, and so for management and core
unfoldable pub disable_components : NvMesh → NvMesh
disable_components cr = record cr {
  spec = record (cr.spec) {
    core = record (cr.spec.core) { disabled = true };
    management = record (cr.spec.management) { disabled = true };
    csi = record (cr.spec.csi) { disabled = true };
  };
}

module _ {W : Type 0} where
  -- A stage that reads the resource.
  abbrev pub stage : String → (NvMesh → Act W Outcome) → Task W
  stage name run = record { name = name; run = with_cr run }

module _ {W : Type 0} (op : Operator W) where
  unfoldable pub uninstall_stages : List (Task W)
  unfolding remove_mongo remove_all_workloads_except_mongo wait_for_workloads_to_finish
      wait_for_clear_db_to_finish delete_cluster_service_account delete_pvcs run_clear_db_job
      uninstall_cluster_nodes
  uninstall_stages =
      stage "removeAllWorkloads" (remove_all_workloads_except_mongo op)
      ∷ stage "waitForWorkloadsToFinish" (λ _. wait_for_workloads_to_finish op)
      ∷ stage "clearDB" (λ cr. not_again (run_clear_db_job op.client cr clear_db_job_name))
      ∷ stage "waitForClearDBToFinish" (wait_for_clear_db_to_finish op)
      ∷ stage "removeMongo" (λ cr. not_again (remove_mongo op cr))
      ∷ stage "uninstallClusterNodes" (uninstall_cluster_nodes op.client)
      ∷ stage "deletePVCs" (delete_pvcs op)
      ∷ stage "deleteClusterServiceAccount" (delete_cluster_service_account op)
      ∷ []

  unfoldable pub uninstall_done : Act (Session W) Outcome
  unfolding set_action_complete disable_components
  uninstall_done = do
    _ ← set_action_complete uninstall_action
    _ ← modify_cr disable_components
    pure (do_not_requeue, none)

  unfoldable pub uninstall_ended : Option Outcome → Act (Session W) Outcome
  unfolding uninstall_done
  uninstall_ended (some outcome) = pure outcome
  uninstall_ended none = uninstall_done

  unfoldable pub run_uninstall : Act (Session W) Outcome
  unfolding run_stages uninstall_stages uninstall_ended
  run_uninstall = run_stages uninstall_stages >>= uninstall_ended

  unfoldable pub uninstall_cluster : Act (Session W) Outcome
  unfolding run_uninstall
  uninstall_cluster = do
    cr ← get_cr
    if cr.spec.operator.skip_uninstall then pure (do_not_requeue, none) else run_uninstall
