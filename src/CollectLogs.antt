-- ===== src/CollectLogs.antt =====
-- pkg/controllers/collect_logs.go: the action `collect-logs`, whose tasks are resumed by their statuses.
-- The jobs are in the child Jobs.
pub mod Jobs
pub mod Mounts
use nvmesh_k8s_operator.Prelude.{
  String, Bool, true, false, Option, none, some, List, [], ◌∷◌, concat, is_some, if◌then◌else◌,
  ◌||◌,
}
use nvmesh_k8s_operator.Prelude.Dict.{Dict}
use nvmesh_k8s_operator.Api.{NvMesh, ClusterAction}
use nvmesh_k8s_operator.Slices.{sanitize_string}
use nvmesh_k8s_operator.Kube.{
  Client, Act, pure, call, ◌>>=◌, ◌>>◌, or_return, Err, Result, ok, err, is_not_found, unless,
  CtrlResult, Outcome, do_not_requeue, requeue_in, Node,
}
use nvmesh_k8s_operator.Tasks.{
  task_is_finished, set_task_started, set_task_finished, set_action_complete,
}
use nvmesh_k8s_operator.Operator.{Operator, Session, with_cr, get_cr}
use nvmesh_k8s_operator.Nodes.{
  get_all_nvmesh_cluster_nodes, get_all_mgmt_labelled_nodes, add_nodes, node_set_to_list,
  mgmt_label_key,
}
use nvmesh_k8s_operator.Jobs.Wait.{wait_for_job_to_finish}
use nvmesh_k8s_operator.Jobs.Delete.{delete_job}
use nvmesh_k8s_operator.CollectLogs.Jobs.{
  collect_db_job_name, collect_config_maps_job_name, collect_logs_job_name_of, run_collect_db_job,
  run_collect_config_maps_job, create_collect_logs_job,
}

-- What `handleAction` returns: whether the action is to be removed, the result and the error.
abbrev pub Handled : Type 0
Handled = Bool × Outcome

-- A task that ends the handler early, or goes on.
abbrev pub failed : Option Err → Option Handled
failed none = none
failed (some e) = some (false, (do_not_requeue, some e))

module _ {W : Type 0} where
  -- `if !r.isTaskFinished(cr, a, key) { r.setTaskStarted(…) … r.setTaskFinished(…) }`, then the rest
  unfoldable pub task_end :
      ClusterAction
      → (key : String) → (rest : Act (Session W) Handled) → Option Handled
      → Act (Session W) Handled
  task_end a key rest (some out) = pure out
  task_end a key rest none = set_task_finished a key >> rest

  unfoldable pub task_run :
      ClusterAction
      → (key : String) → (run : NvMesh → Act W (Option Handled)) → (rest : Act (Session W) Handled)
      → Act (Session W) Handled
  unfolding task_end
  task_run a key run rest = do
    _ ← set_task_started a key
    out ← with_cr run
    task_end a key rest out

  unfoldable pub task_step :
      ClusterAction
      → (key : String) → (run : NvMesh → Act W (Option Handled)) → (rest : Act (Session W) Handled)
      → Act (Session W) Handled
  unfolding task_run
  task_step a key run rest = do
    finished ← task_is_finished a key
    if finished then rest else task_run a key run rest

module _ {W : Type 0} (client : Client W) where
  unfoldable pub create_jobs : ClusterAction → List Node → NvMesh → Act W (Option Err)
  unfolding create_collect_logs_job
  create_jobs a [] cr = pure none
  create_jobs a (node ∷ nodes) cr =
      or_return (create_collect_logs_job client cr a node.name) (create_jobs a nodes cr)

  -- `res.RequeueAfter = time.Second * 3`
  abbrev pub after_three : CtrlResult → CtrlResult
  after_three result = record result { requeue_after = 3 }

  -- A job that is waited for by name: its error is returned with the result as it is.
  abbrev job_waited : Act W (Option Handled) → Outcome → Act W (Option Handled)
  job_waited rest (result, some e) = pure (some (false, (result, some e)))
  job_waited rest (result, none) =
      if result.requeue then pure (some (false, (after_three result, none))) else rest

  -- A node's job: the delay is set beside an error too.
  abbrev node_waited : Act W (Option Handled) → Outcome → Act W (Option Handled)
  node_waited rest (result, e) =
      if result.requeue || is_some e then pure (some (false, (after_three result, e))) else rest

  unfoldable pub wait_for_node_jobs : List Node → NvMesh → Act W (Option Handled)
  unfolding wait_for_job_to_finish collect_logs_job_name_of
  wait_for_node_jobs [] cr = pure none
  wait_for_node_jobs (node ∷ nodes) cr =
      wait_for_job_to_finish client cr (collect_logs_job_name_of node.name)
      >>= node_waited (wait_for_node_jobs nodes cr)

  unfoldable pub wait_for_jobs : List Node → NvMesh → Act W (Option Handled)
  unfolding wait_for_job_to_finish wait_for_node_jobs
  wait_for_jobs nodes cr =
      wait_for_job_to_finish client cr collect_db_job_name
      >>= job_waited (
          wait_for_job_to_finish client cr collect_config_maps_job_name
          >>= job_waited (wait_for_node_jobs nodes cr))

  unfoldable pub delete_node_jobs : NvMesh → List Node → Act W (Option Err)
  unfolding delete_job collect_logs_job_name_of
  delete_node_jobs cr [] = pure none
  delete_node_jobs cr (node ∷ nodes) =
      or_return (delete_job client cr.meta.namespace (collect_logs_job_name_of node.name))
        (delete_node_jobs cr nodes)

  unfoldable pub delete_collect_log_jobs : NvMesh → List Node → Act W (Option Err)
  unfolding delete_node_jobs delete_job
  delete_collect_log_jobs cr nodes =
      or_return (delete_job client cr.meta.namespace collect_db_job_name) (
        or_return (delete_job client cr.meta.namespace collect_config_maps_job_name)
          (delete_node_jobs cr nodes))

  unfoldable pub delete_jobs : List Node → NvMesh → Act W (Option Handled)
  unfolding delete_collect_log_jobs
  delete_jobs nodes cr = do
    e ← delete_collect_log_jobs cr nodes
    pure (elim (unless is_not_found e) [
      | none ↦ none
      | some x ↦ some (false, (requeue_in 1, some x))
    ])

  -- The nodes that a log is collected from, or what the handler returns where they cannot be listed.
  unfoldable pub with_mgmt_nodes : NvMesh → Result (Dict Node) → Act W (Result (List Node))
  unfolding get_all_mgmt_labelled_nodes add_nodes node_set_to_list
  with_mgmt_nodes cr (err e) = pure (
      err (
        Err.wrap e
          (concat ("Failed to list all of the nodes in NVMesh Cluster " ∷ cr.meta.name ∷ []))))
  with_mgmt_nodes cr (ok set) = do
    mgmt ← get_all_mgmt_labelled_nodes client
    pure (elim mgmt [
      | err e ↦ err (Err.wrap e (concat ("Failed to list nodes with label " ∷ mgmt_label_key ∷ [])))
      | ok nodes ↦ ok (node_set_to_list (add_nodes set nodes))
    ])

  unfoldable pub get_log_nodes : NvMesh → Act W (Result (List Node))
  unfolding get_all_nvmesh_cluster_nodes with_mgmt_nodes
  get_log_nodes cr = get_all_nvmesh_cluster_nodes client >>= with_mgmt_nodes cr

  unfoldable pub collect_done : ClusterAction → Act (Session W) Handled
  collect_done a = set_action_complete a >> pure (true, (do_not_requeue, none))

  unfoldable pub collect_from : ClusterAction → Result (List Node) → Act (Session W) Handled
  unfolding task_step create_jobs wait_for_jobs delete_jobs collect_done
  collect_from a (err e) = pure (false, (do_not_requeue, some e))
  collect_from a (ok nodes) =
      task_step a "CollectLogs" (λ cr. create_jobs a nodes cr >>= λ e. pure (failed e))
        (task_step a "waitForJobsToFinish" (wait_for_jobs nodes)
          (task_step a "DeleteJobs" (delete_jobs nodes) (collect_done a)))

  unfoldable pub handle_collect_logs : ClusterAction → Act (Session W) Handled
  unfolding task_step run_collect_db_job run_collect_config_maps_job get_log_nodes collect_from
  handle_collect_logs a =
      task_step a "CollectDB" (λ cr. run_collect_db_job client cr a >>= λ e. pure (failed e))
        (task_step a "CollectConfigMaps"
          (λ cr. run_collect_config_maps_job client cr a >>= λ e. pure (failed e))
          (with_cr get_log_nodes >>= collect_from a))
