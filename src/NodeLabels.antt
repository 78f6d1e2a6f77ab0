-- ===== src/NodeLabels.antt =====
-- pkg/controllers/node_labels.go: a node that loses its last NVMesh label is uninstalled. The informer that
-- calls `onNodeUpdate` is the library's, and what is only printed is left out.
use nvmesh_k8s_operator.Prelude.{
  String, Bool, true, false, Option, none, [], ◌∷◌, concat, not, ◌&&◌, ◌||◌, ◌≡◌, ◌≢◌, arith, ◌⊎◌,
}
use nvmesh_k8s_operator.Prelude.Dict.{has}
use nvmesh_k8s_operator.Api.{NvMesh, empty_nvmesh}
use nvmesh_k8s_operator.Kube.{Client, Act, returned, Err, CtrlResult, Outcome, Node}
use nvmesh_k8s_operator.Nodes.{client_label_key, target_label_key}
use nvmesh_k8s_operator.Jobs.Wait.{wait_for_job_to_finish_without_cr}
use nvmesh_k8s_operator.Jobs.Delete.{delete_job}
use nvmesh_k8s_operator.Uninstall.Jobs.{uninstall_job_name_prefix, uninstall_node}

-- `_, ok := node.ObjectMeta.Labels[key]`
abbrev pub has_label : Node → String → Bool
has_label node key = has node.labels key

-- Whether `onNodeUpdate` starts the uninstall of the node.
unfoldable pub on_node_update : (old_node new_node : Node) → Bool
on_node_update old_node new_node =
    let client_in_new = has_label new_node client_label_key in
    let client_in_old = has_label old_node client_label_key in
    let target_in_new = has_label new_node target_label_key in
    let target_in_old = has_label old_node target_label_key in
    let client_removed = client_in_old && not client_in_new in
    let target_removed = target_in_old && not target_in_new in
    not target_in_new && not client_in_new && (client_removed || target_removed)

-- A node that is a client or a target of the cluster.
abbrev pub is_member : Node → Bool
is_member node = has_label node client_label_key || has_label node target_label_key

-- The uninstall of a node starts exactly when the node was a client or a target, and is neither now.
pub on_node_update-is_member :
    (old_node new_node : Node)
    → on_node_update old_node new_node ≡ (is_member old_node && not (is_member new_node))
unfolding on_node_update
on_node_update-is_member old_node new_node = ground arith

-- The resource that stands for the event: it has a name only.
abbrev pub fake_cr : NvMesh
fake_cr = record empty_nvmesh {
  meta = record (empty_nvmesh.meta) { name = "uninstall-node-from-event" };
}

-- The name and the namespace of the job that is waited for. The job that was created has the node's
-- name sanitised, and no namespace.
abbrev pub event_job_name : (node : String) → String
event_job_name node = concat (uninstall_job_name_prefix ∷ node ∷ [])

module _ {W : Type 0} (client : Client W) where
  abbrev pub event_wait : (node : String) → Act W Outcome
  event_wait node = wait_for_job_to_finish_without_cr client "default" (event_job_name node) false

  -- The loop of `uninstallAndWaitToFinish`, from one world to another: it ends where a wait asks for no
  -- requeue and has no error, and goes on, after a pause, where it has one of them.
  pub data EventWaits (node : String) : W → W → Type 0 where
    over :
        (w : W) (result : CtrlResult)
        → (event_wait node w).0 ≡ returned (result, none)
        → result.requeue ≡ false
        → EventWaits node w (event_wait node w).1
    goes_on :
        (w w' : W) (result : CtrlResult) (e : Option Err)
        → (event_wait node w).0 ≡ returned (result, e)
        → (result.requeue ≡ true) ⊎ (e ≢ none)
        → EventWaits node (event_wait node w).1 w'
        → EventWaits node w w'

  -- `uninstallAndWaitToFinish`: the job is created, waited for, and deleted; an error of the first and the
  -- last step is only printed.
  pub data EventUninstalls (node : String) (w : W) : W → Type 0 where
    uninstalls :
        (w' : W)
        → EventWaits node (uninstall_node client fake_cr node w).1 w'
        → EventUninstalls node w (delete_job client "default" (event_job_name node) w').1
