-- ===== src/Tests/Values.antt =====
-- The theorems about plain values, applied.
use nvmesh_k8s_operator.Prelude.{
  String, true, none, some, List, [], ◌∷◌, ◌≡◌, ◌↔◌, refl, if◌then◌else◌, split, map,
}
use nvmesh_k8s_operator.Prelude.Dict.{Dict, get}
use nvmesh_k8s_operator.Api.{
  ClusterCondition, ClusterAction, ConditionStatus, ready, uninstalling, is_true, is_false,
  empty_nvmesh,
}
use nvmesh_k8s_operator.Kube.{Node, PodSpec, Container, unset}
use nvmesh_k8s_operator.Conditions.{
  find_status_condition, set_status_condition, remove_status_condition,
}
use nvmesh_k8s_operator.Conditions.Laws.{IsUnique, RemovesType, set-IsUnique, remove-RemovesType}
use nvmesh_k8s_operator.Slices.{contains_string, is_string_arrays_equal_elements}
use nvmesh_k8s_operator.Slices.SameElements.{is_string_arrays_equal_elements_iff}
use nvmesh_k8s_operator.Actions.{remove_action, drop_stale, has_action}
use nvmesh_k8s_operator.Actions.Removal.{remove_at, remove_action-remove_at}
use nvmesh_k8s_operator.Actions.Stale.{get-drop_stale}
use nvmesh_k8s_operator.Core.{keep_added}
use nvmesh_k8s_operator.Core.Config.{or_else, get-keep_added}
use nvmesh_k8s_operator.CollectLogs.Mounts.{jobs-AreMounted}
use nvmesh_k8s_operator.Core.DaemonSets.{
  init_daemon_sets, init_containers, init_container, container_image, infiniband_mount,
  set_env_variable_values,
}
use nvmesh_k8s_operator.CollectLogs.Jobs.{collect_db_job, collect_config_maps_job, collect_logs_job}
use nvmesh_k8s_operator.Uninstall.Jobs.{node_uninstall_job}
use nvmesh_k8s_operator.Jobs.{get_new_job, new_container, get_core_full_image_name}
use nvmesh_k8s_operator.Jobs.Mounts.{AreMounted}

abbrev condition : String → ConditionStatus → ClusterCondition
condition type status = record {
  type = type;
  status = status;
  last_transition_time = none;
  reason = "";
  message = "";
}

abbrev old : ClusterCondition
old = record (condition ready is_false) { last_transition_time = some 3 }

abbrev conditions : List ClusterCondition
conditions = old ∷ condition uninstalling is_true ∷ []

set-IsUnique_example : IsUnique (set_status_condition 5 conditions (condition ready is_true))
unfolding find_status_condition
set-IsUnique_example = set-IsUnique 5 conditions (condition ready is_true) (refl, (refl, tt))

remove-RemovesType_example : RemovesType conditions ready (remove_status_condition conditions ready)
remove-RemovesType_example = remove-RemovesType conditions ready

abbrev collect_action : ClusterAction
collect_action = record { name = "collect-logs"; args = [] }

abbrev other : ClusterAction
other = record { name = "other"; args = [] }

remove_action-remove_at_example :
    remove_action 1 (collect_action ∷ other ∷ collect_action ∷ [])
    ≡ remove_at 1 (collect_action ∷ other ∷ collect_action ∷ [])
remove_action-remove_at_example =
    remove_action-remove_at 1 (collect_action ∷ other ∷ collect_action ∷ [])

-- The second of two actions is gone after its index moved: index 1 is out of range.
remove_stale_index : remove_action 1 (collect_action ∷ []) ≡ none
unfolding remove_action
remove_stale_index = refl

abbrev statuses : Dict (Dict String)
statuses = ("uninstall", []) ∷ ("collect-logs", ("CollectDB", "TaskFinished") ∷ []) ∷ []

get-drop_stale_example : get (drop_stale (collect_action ∷ []) statuses).0 "collect-logs" ≡ (
    if has_action (collect_action ∷ []) "collect-logs" then get statuses "collect-logs" else none)
get-drop_stale_example = get-drop_stale (collect_action ∷ []) statuses "collect-logs"

abbrev wanted_conf : Dict String
wanted_conf = ("TCP_ENABLED", "\"Yes\"") ∷ []

abbrev current_conf : Dict String
current_conf = ("TCP_ENABLED", "\"No\"") ∷ ("USER_ADDED", "1") ∷ []

get-keep_added_example :
    get (keep_added wanted_conf current_conf) "USER_ADDED"
    ≡ or_else (get wanted_conf "USER_ADDED") (get current_conf "USER_ADDED")
get-keep_added_example = get-keep_added wanted_conf current_conf "USER_ADDED"

jobs-AreMounted_example :
    AreMounted (node_uninstall_job empty_nvmesh "node.a").template
    × AreMounted (collect_db_job empty_nvmesh collect_action).template
    × AreMounted (collect_config_maps_job empty_nvmesh collect_action).template
    × AreMounted (collect_logs_job empty_nvmesh collect_action "node.a").template
jobs-AreMounted_example = jobs-AreMounted empty_nvmesh collect_action "node.a"

abbrev node_b : Node
node_b = record { name = "node.b"; labels = [] }

split_runs : split "a\n---\nb: 1\n---\n" "\n---\n" ≡ "a" ∷ "b: 1" ∷ "" ∷ []
unfolding split
split_runs = refl

is_string_arrays_equal_elements_iff_example :
    (is_string_arrays_equal_elements ("a" ∷ "b" ∷ []) ("b" ∷ "a" ∷ "b" ∷ []) ≡ true)
    ↔ ((k : String) → contains_string ("a" ∷ "b" ∷ []) k ≡ contains_string ("b" ∷ "a" ∷ "b" ∷ []) k)
is_string_arrays_equal_elements_iff_example =
    is_string_arrays_equal_elements_iff ("a" ∷ "b" ∷ []) ("b" ∷ "a" ∷ "b" ∷ [])

abbrev daemon_set_pod : PodSpec
daemon_set_pod = record (get_new_job empty_nvmesh "core" "").template {
  containers =
      new_container "toma" "" unset
      ∷ new_container "driver-container" "" unset
      ∷ new_container "agent" "" unset
      ∷ [];
}

init_daemon_sets_images :
    map (λ (c : Container). c.image) (init_daemon_sets empty_nvmesh daemon_set_pod).containers
    ≡ "/nvmesh-toma:" ∷ "/nvmesh-driver-container:" ∷ "/nvmesh-mcs:" ∷ []
unfolding init_daemon_sets init_containers init_container container_image infiniband_mount
    set_env_variable_values get_core_full_image_name get_new_job
init_daemon_sets_images = refl
