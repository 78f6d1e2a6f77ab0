-- ===== src/Uninstall/Nodes.antt =====
-- The stage `uninstallClusterNodes` of pkg/controllers/uninstall.go: a job for every node, then the
-- wait for all of them, then their deletion.
use nvmesh_k8s_operator.Prelude.{
  Option, none, some, List, [], ◌∷◌, concat, if◌then◌else◌, ◌||◌, is_some,
}
use nvmesh_k8s_operator.Api.{NvMesh}
use nvmesh_k8s_operator.Kube.{
  Client, Act, pure, ◌>>=◌, or_return, Err, ok, err, Outcome, do_not_requeue, Node,
}
use nvmesh_k8s_operator.Jobs.Wait.{wait_for_job_to_finish}
use nvmesh_k8s_operator.Jobs.Delete.{delete_job}
use nvmesh_k8s_operator.Nodes.{get_all_nvmesh_cluster_nodes, node_set_to_list}
use nvmesh_k8s_operator.Uninstall.{not_again}
use nvmesh_k8s_operator.Uninstall.Jobs.{get_uninstall_job_name, uninstall_node}

module _ {W : Type 0} (client : Client W) where
  -- A failure on a node is only logged: the error that is returned is the outer variable, which the
  -- loop's own `err` hides.
  unfoldable pub run_uninstall_jobs : NvMesh → List Node → Act W (Option Err)
  unfolding uninstall_node
  run_uninstall_jobs cr [] = pure none
  run_uninstall_jobs cr (node ∷ nodes) = do
    _ ← uninstall_node client cr node.name
    run_uninstall_jobs cr nodes

  unfoldable pub wait_for_uninstall_completion : NvMesh → List Node → Act W Outcome
  unfolding wait_for_job_to_finish get_uninstall_job_name
  wait_for_uninstall_completion cr [] = pure (do_not_requeue, none)
  wait_for_uninstall_completion cr (node ∷ nodes) = do
    (result, e) ← wait_for_job_to_finish client cr (get_uninstall_job_name node.name)
    if result.requeue || is_some e then pure (result, e) else wait_for_uninstall_completion cr nodes

  unfoldable pub delete_uninstall_jobs : NvMesh → List Node → Act W (Option Err)
  unfolding delete_job get_uninstall_job_name
  delete_uninstall_jobs cr [] = pure none
  delete_uninstall_jobs cr (node ∷ nodes) =
      or_return (delete_job client cr.meta.namespace (get_uninstall_job_name node.name))
        (delete_uninstall_jobs cr nodes)

  -- What follows the wait.
  unfoldable pub uninstall_waited : NvMesh → List Node → Outcome → Act W Outcome
  unfolding delete_uninstall_jobs
  uninstall_waited cr nodes (result, e) =
      if is_some e || result.requeue
      then pure (result, e)
      else not_again (delete_uninstall_jobs cr nodes)

  unfoldable pub uninstall_nodes : NvMesh → List Node → Act W Outcome
  unfolding run_uninstall_jobs wait_for_uninstall_completion uninstall_waited
  uninstall_nodes cr nodes = do
    e ← run_uninstall_jobs cr nodes
    elim e [
      | some x ↦ pure (do_not_requeue, some x)
      | none ↦ wait_for_uninstall_completion cr nodes >>= uninstall_waited cr nodes
    ]

  unfoldable pub uninstall_cluster_nodes : NvMesh → Act W Outcome
  unfolding get_all_nvmesh_cluster_nodes node_set_to_list uninstall_nodes
  uninstall_cluster_nodes cr = do
    found ← get_all_nvmesh_cluster_nodes client
    elim found [
      | err e ↦ pure (
        do_not_requeue,
        some (
            Err.wrap e
              (concat ("Failed to list all of the nodes in NVMesh Cluster " ∷ cr.meta.name ∷ []))),
      )
      | ok set ↦ uninstall_nodes cr (node_set_to_list set)
    ]
