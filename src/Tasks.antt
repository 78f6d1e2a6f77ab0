-- ===== src/Tasks.antt =====
-- The statuses of the sub-tasks of an action, in pkg/controllers/nvmesh_actions.go: a map from the
-- action's name to a map from the task's name to its status. A nil map reads as an empty one, and
-- reading a status adds an empty map for an action that has none.
pub mod Laws
use nvmesh_k8s_operator.Prelude.{
  String, Bool, Option, none, some, List, [], ◌∷◌, ◌==◌, if◌then◌else◌,
}
use nvmesh_k8s_operator.Prelude.Dict.{Dict, get, put, get_text}
use nvmesh_k8s_operator.Api.{NvMesh, ClusterAction}
use nvmesh_k8s_operator.Kube.{Act, returned}
use nvmesh_k8s_operator.Operator.{Session, modify_cr}

abbrev pub action_complete : String
action_complete = "ActionComplete"

abbrev pub task_finished : String
task_finished = "TaskFinished"

abbrev pub task_started : String
task_started = "TaskStarted"

abbrev pub with_actions_status : NvMesh → Dict (Dict String) → NvMesh
with_actions_status cr d = record cr { status = record (cr.status) { actions_status = d } }

-- `if _, ok := ActionsStatus[name]; !ok { ActionsStatus[name] = make(map[string]string) }`
unfoldable pub ensure_action : Dict (Dict String) → String → Dict (Dict String)
ensure_action d name = elim (get d name) [ none ↦ put d name [] | some _ ↦ d ]

abbrev pub action_status : Dict (Dict String) → String → Dict String
action_status d name = elim (get d name) [ none ↦ [] | some m ↦ m ]

unfoldable pub get_task_status : NvMesh → ClusterAction → String → String × NvMesh
unfolding ensure_action
get_task_status cr action key =
    let d = ensure_action cr.status.actions_status action.name in
    (get_text (action_status d action.name) key, with_actions_status cr d)

unfoldable pub set_task_status : ClusterAction → (key value : String) → NvMesh → NvMesh
unfolding ensure_action
set_task_status action key value cr =
    let d = ensure_action cr.status.actions_status action.name in
    with_actions_status cr (put d action.name (put (action_status d action.name) key value))

unfoldable pub is_task_finished : NvMesh → ClusterAction → String → Bool × NvMesh
unfolding get_task_status
is_task_finished cr action key =
    let (value, cr') = get_task_status cr action key in (value == task_finished, cr')

-- getActionArg
unfoldable pub get_action_arg : ClusterAction → String → Option String
get_action_arg action key = get action.args key

module _ {W : Type 0} where
  unfoldable pub task_is_finished : ClusterAction → String → Act (Session W) Bool
  unfolding is_task_finished
  task_is_finished action key s =
      let (b, cr) = is_task_finished s.cr action key in (returned b, record s { cr = cr })

  unfoldable pub set_task_started : ClusterAction → String → Act (Session W) (Unit {0})
  unfolding set_task_status
  set_task_started action key = modify_cr (set_task_status action key task_started)

  unfoldable pub set_task_finished : ClusterAction → String → Act (Session W) (Unit {0})
  unfolding set_task_status
  set_task_finished action key = modify_cr (set_task_status action key task_finished)

  unfoldable pub set_action_complete : ClusterAction → Act (Session W) (Unit {0})
  unfolding set_task_status
  set_action_complete action = modify_cr (set_task_status action action_complete task_finished)
