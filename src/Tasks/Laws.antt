-- ===== src/Tasks/Laws.antt =====
-- Reading and writing the statuses of tasks.
use nvmesh_k8s_operator.Prelude.{String, [], ◌==◌, ◌&&◌, if◌then◌else◌, ◌≡◌, arith, eq_iff}
use nvmesh_k8s_operator.Prelude.Dict.{Dict, put, get_text, get-put}
use nvmesh_k8s_operator.Api.{NvMesh, ClusterAction}
use nvmesh_k8s_operator.Tasks.{
  ensure_action, action_status, get_task_status, set_task_status, is_task_finished, task_finished,
}

-- The status of a task, empty where there is none.
abbrev pub status_of : NvMesh → (action key : String) → String
status_of cr action key = get_text (action_status cr.status.actions_status action) key

action_status-ensure :
    (d : Dict (Dict String)) (name other : String)
    → action_status (ensure_action d name) other ≡ action_status d other
unfolding ensure_action
action_status-ensure d name other = ground (arith, get-put d name other [], eq_iff name other)

pub get_task_status-value :
    (cr : NvMesh) (action : ClusterAction) (key : String)
    → (get_task_status cr action key).0 ≡ status_of cr action.name key
unfolding get_task_status
get_task_status-value cr action key =
    simp (action_status-ensure cr.status.actions_status action.name action.name)

-- Reading a status changes no status.
pub status_of-is_task_finished :
    (cr : NvMesh) (action : ClusterAction) (key other k : String)
    → status_of (is_task_finished cr action key).1 other k ≡ status_of cr other k
unfolding is_task_finished
status_of-is_task_finished cr action key other k =
    ground (arith, action_status-ensure cr.status.actions_status action.name other)

pub is_task_finished-value :
    (cr : NvMesh) (action : ClusterAction) (key : String)
    → (is_task_finished cr action key).0 ≡ (status_of cr action.name key == task_finished)
unfolding is_task_finished
is_task_finished-value cr action key =
    ground (arith, action_status-ensure cr.status.actions_status action.name action.name)

-- `setTaskStatus` changes the status of that task of that action and no other.
pub status_of-set :
    (cr : NvMesh) (action : ClusterAction) (key value other k : String)
    → status_of (set_task_status action key value cr) other k
      ≡ (if (action.name == other) && (key == k) then value else status_of cr other k)
unfolding set_task_status
status_of-set cr action key value other k = ground (
  arith,
  get-put (ensure_action cr.status.actions_status action.name) action.name other (
      put (action_status (ensure_action cr.status.actions_status action.name) action.name) key
        value),
  get-put (action_status (ensure_action cr.status.actions_status action.name) action.name) key k
      value,
  action_status-ensure cr.status.actions_status action.name other,
  eq_iff action.name other,
  eq_iff key k,
)
