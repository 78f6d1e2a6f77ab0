-- ===== src/Tests/Runs.antt =====
-- The theorems about whole runs, applied in the small world.
use nvmesh_k8s_operator.Prelude.{
  ℕ, String, Bool, true, false, Option, none, some, List, [], ◌∷◌, ◌≡◌, refl, arith, All, inr,
}
use nvmesh_k8s_operator.Api.{empty_nvmesh, ready}
use nvmesh_k8s_operator.Kube.{returned, message, do_not_requeue, requeue_in}
use nvmesh_k8s_operator.Conditions.{is_status_condition_true, is_status_condition_false}
use nvmesh_k8s_operator.Operator.{Session}
use nvmesh_k8s_operator.Prelude.Dict
use nvmesh_k8s_operator.Prelude.{split}
use nvmesh_k8s_operator.Kube.{kind_of, reason_of}
use nvmesh_k8s_operator.Slices.{string_in_slice}
use nvmesh_k8s_operator.Yaml.{yaml_file_to_objects}
use nvmesh_k8s_operator.Objects.{object_namespace, reconcile_object}
use nvmesh_k8s_operator.Resources.{list_files_in_dir}
use nvmesh_k8s_operator.Jobs.{is_single_job_completed}
use nvmesh_k8s_operator.Prelude.{eq_iff, not, ◌&&◌}
use nvmesh_k8s_operator.Kube.{CtrlResult, Node}
use nvmesh_k8s_operator.Nodes.{client_label_key}
use nvmesh_k8s_operator.NodeLabels.{on_node_update, is_member, on_node_update-is_member}
use nvmesh_k8s_operator.Uninstall.Refusal.{IsOpen, uninstall_cluster-IsOpen}
use nvmesh_k8s_operator.Tests.World.{file_contents, decode_document, look_up, without, with_object}
use nvmesh_k8s_operator.Tasks.{
  task_finished, task_is_finished, set_task_started, set_task_finished, set_action_complete,
}
use nvmesh_k8s_operator.Stages.{Task, run_stages}
use nvmesh_k8s_operator.Stages.Resume.{AreFinished, run_stages-AreFinished, run_stages-finished}
use nvmesh_k8s_operator.Uninstall.Cluster.{uninstall_cluster, stage}
use nvmesh_k8s_operator.Uninstall.Order.{
  IsOrdered, IsUninstalled, AreDisabled, uninstall_cluster-IsOrdered,
  uninstall_cluster-IsUninstalled,
}
use nvmesh_k8s_operator.Status.{manage_success, manage_error}
use nvmesh_k8s_operator.Status.Managed.{
  write_out, IsSameBut, manage_success-writes, manage_error-writes,
}
use nvmesh_k8s_operator.Reconcile.{reconcile_all_components}
use nvmesh_k8s_operator.Reconcile.Components.{reconcile_all_components-after}
use nvmesh_k8s_operator.Tests.World.{World}
use nvmesh_k8s_operator.Tests.Reconciler.{
  refusing_operator, test_operator, test_session, deleted_cr,
}

-- Two stages: the first ends, the second asks to be run again.
abbrev two_stages : List (Task World)
two_stages =
    stage "first" (λ cr w. (returned (do_not_requeue, none), w))
    ∷ stage "second" (λ cr w. (returned (requeue_in 1, none), w))
    ∷ []

abbrev one_stage : List (Task World)
one_stage = stage "first" (λ cr w. (returned (do_not_requeue, none), w)) ∷ []

run_stages-AreFinished_example : AreFinished (run_stages one_stage test_session).1 one_stage
unfolding run_stages nvmesh_k8s_operator.Tasks.task_is_finished nvmesh_k8s_operator.Prelude.Dict.get
    nvmesh_k8s_operator.Prelude.Dict.put nvmesh_k8s_operator.Tasks.set_task_started
    nvmesh_k8s_operator.Tasks.set_task_finished
run_stages-AreFinished_example =
    run_stages-AreFinished one_stage (tt, tt) ((λ s name. refl), tt) test_session refl

abbrev resumed : Session World
resumed = (run_stages one_stage test_session).1

run_stages-finished_example :
    ((run_stages one_stage resumed).0 ≡ returned none)
    × ((run_stages one_stage resumed).1.world ≡ resumed.world)
unfolding nvmesh_k8s_operator.Prelude.Dict.get run_stages nvmesh_k8s_operator.Tasks.task_is_finished
    nvmesh_k8s_operator.Prelude.Dict.put nvmesh_k8s_operator.Tasks.set_task_started
    nvmesh_k8s_operator.Tasks.set_task_finished
run_stages-finished_example = run_stages-finished one_stage resumed (refl, tt)

uninstall_cluster-IsOrdered_example : IsOrdered (uninstall_cluster test_operator test_session).1.cr
unfolding IsOrdered Dict.get
uninstall_cluster-IsOrdered_example =
    uninstall_cluster-IsOrdered test_operator test_session
      (inr (refl, (refl, (refl, (refl, (refl, (refl, (refl, tt))))))))

uninstall_cluster-IsUninstalled_example :
    IsUninstalled (uninstall_cluster test_operator test_session).1.cr
    × AreDisabled (uninstall_cluster test_operator test_session).1.cr
unfolding uninstall_cluster Dict.get Dict.put task_is_finished set_task_started set_task_finished
    set_action_complete list_files_in_dir yaml_file_to_objects file_contents split decode_document
    reconcile_object look_up reason_of is_single_job_completed without with_object kind_of
    object_namespace string_in_slice
uninstall_cluster-IsUninstalled_example =
    uninstall_cluster-IsUninstalled test_operator test_session do_not_requeue refl refl refl

manage_success-writes_example :
    (s' : Session World) × (manage_success test_operator do_not_requeue test_session
      ≡ write_out test_operator do_not_requeue s')
    × (is_status_condition_true s'.cr.status.conditions ready ≡ true)
    × IsSameBut test_operator s'.cr deleted_cr
manage_success-writes_example = manage_success-writes test_operator do_not_requeue test_session

manage_error-writes_example :
    (s' : Session World) × (manage_error test_operator
        (message "failed")
        do_not_requeue
        test_session
      ≡ write_out test_operator do_not_requeue s')
    × (is_status_condition_false s'.cr.status.conditions ready ≡ true)
    × IsSameBut test_operator s'.cr deleted_cr
manage_error-writes_example =
    manage_error-writes test_operator (message "failed") do_not_requeue test_session

reconcile_all_components-after_example : do_not_requeue.requeue_after ≡ 0
unfolding reconcile_all_components Dict.get Dict.put task_is_finished set_task_started
    set_task_finished set_action_complete list_files_in_dir yaml_file_to_objects file_contents split
    decode_document reconcile_object look_up reason_of is_single_job_completed without with_object
    kind_of object_namespace string_in_slice
reconcile_all_components-after_example =
    reconcile_all_components-after test_operator empty_nvmesh [] do_not_requeue none refl

unfinished : IsOpen "deletePVCs" test_session
unfolding Dict.get
unfinished p = ground (arith, eq_iff "" task_finished, p)

uninstall_cluster-IsOpen_example :
    IsOpen "deletePVCs" (uninstall_cluster refusing_operator test_session).1
    × ((result : CtrlResult)
        → (uninstall_cluster refusing_operator test_session).0 ≡ returned (result, none)
        → result.requeue ≡ true)
uninstall_cluster-IsOpen_example =
    uninstall_cluster-IsOpen refusing_operator
      (message "values set must be empty for exists and does not exist", refl) test_session refl
      unfinished

abbrev labelled : Node
labelled = record { name = "node-a"; labels = (client_label_key, "") ∷ [] }

abbrev unlabelled : Node
unlabelled = record { name = "node-a"; labels = [] }

on_node_update-is_member_example :
    on_node_update labelled unlabelled ≡ (is_member labelled && not (is_member unlabelled))
on_node_update-is_member_example = on_node_update-is_member labelled unlabelled
