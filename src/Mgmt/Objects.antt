-- ===== src/Mgmt/Objects.antt =====
-- ShouldUpdateObject of pkg/controllers/mgmt_controller.go, and the management as a component.
use nvmesh_k8s_operator.Prelude.{
  String, Bool, true, false, Option, none, some, List, [], ◌∷◌, ◌==◌, not, if◌then◌else◌,
}
use nvmesh_k8s_operator.Prelude.Dict.{Dict, get_text}
use nvmesh_k8s_operator.Api.{NvMesh}
use nvmesh_k8s_operator.Kube.{
  Act, Ran, returned, panicked, pure, call, ◌>>◌, or_return, Err, Workload, ServiceSpec, Body,
  stateful_set, config_map, service, Obj,
}
use nvmesh_k8s_operator.Slices.{is_string_arrays_equal_elements}
use nvmesh_k8s_operator.Objects.{Component}
use nvmesh_k8s_operator.Objects.Parts.{
  with_body, map_ran, with_stateful_set, with_config_map, with_service,
}
use nvmesh_k8s_operator.Operator.{Operator}
use nvmesh_k8s_operator.Reflect.Workloads.{
  stateful_set_value, fields_differ, image_path, replicas_path,
}
use nvmesh_k8s_operator.Mgmt.{restart_management}
use nvmesh_k8s_operator.Mgmt.Init.{init_mgmt_body}

unfoldable pub should_update_management_stateful_set : (expected ss : Workload) → Ran Bool
unfolding fields_differ stateful_set_value
should_update_management_stateful_set expected ss =
    fields_differ (image_path ∷ replicas_path ∷ []) (stateful_set_value 0 expected)
      (stateful_set_value 2 ss)

unfoldable pub should_update_mongo_stateful_set : (expected ss : Workload) → Ran Bool
unfolding fields_differ stateful_set_value
should_update_mongo_stateful_set expected ss =
    fields_differ (image_path ∷ []) (stateful_set_value 0 expected) (stateful_set_value 2 ss)

abbrev items : Option (List String) → List String
items none = []
items (some l) = l

abbrev pub ips_differ : (expected found : Option (List String)) → Bool
ips_differ none found = false
ips_differ (some ips) found = not (is_string_arrays_equal_elements ips (items found))

-- The expected service takes over the address that the found one was given.
unfoldable pub should_update_gui_service : (expected svc : ServiceSpec) → Bool × ServiceSpec
should_update_gui_service expected svc = (
  ips_differ expected.external_ips svc.external_ips,
  record expected { cluster_ip = svc.cluster_ip },
)

-- Both tests of the code are on the configuration; the versions are only printed.
unfoldable pub should_update_config_map : (expected conf : Dict String) → Bool
should_update_config_map expected conf =
    if not (get_text expected "config" == get_text conf "config")
    then true
    else not (get_text expected "config" == get_text conf "config")

-- The comparisons that make no call: whether to update, and the expected object as it is then.
unfoldable pub should_update_mgmt_body :
    (name : String) → (expected found : Body) → Ran (Bool × Body)
unfolding should_update_management_stateful_set should_update_mongo_stateful_set
    should_update_gui_service
should_update_mgmt_body name expected (stateful_set ss) =
    map_ran (λ b. (b, expected))
      (if name == "nvmesh-management"
        then with_stateful_set (λ e. should_update_management_stateful_set e ss) expected
        else if name == "mongo"
        then with_stateful_set (λ e. should_update_mongo_stateful_set e ss) expected
        else returned false)
should_update_mgmt_body name expected (service svc) =
    if name == "nvmesh-management-gui"
    then with_service
        (λ e. let (b, e') = should_update_gui_service e svc in returned (b, service e')) expected
    else returned (false, expected)
should_update_mgmt_body name expected _ = returned (false, expected)

module _ {W : Type 0} (op : Operator W) where
  unfoldable pub update_conf_and_restart_mgmt : NvMesh → (expected : Obj) → Act W (Option Err)
  unfolding restart_management
  update_conf_and_restart_mgmt cr expected =
      or_return (call (op.client.update expected)) (restart_management op cr.meta.namespace)

  -- The case of the management's config map: it is written here, and an error is only logged.
  unfoldable pub compare_mgmt_config : NvMesh → (expected : Obj) → Ran Bool → Act W (Bool × Obj)
  unfolding update_conf_and_restart_mgmt
  compare_mgmt_config cr expected panicked w = (panicked, w)
  compare_mgmt_config cr expected (returned false) w = (returned (false, expected), w)
  compare_mgmt_config cr expected (returned true) w =
      (update_conf_and_restart_mgmt cr expected >> pure (false, expected)) w

  unfoldable pub should_update_mgmt_object :
      NvMesh → (expected found : Obj) → (found_body : Body) → Act W (Bool × Obj)
  unfolding should_update_config_map compare_mgmt_config should_update_mgmt_body
  should_update_mgmt_object cr expected found (config_map conf) w =
      if found.name == "nvmesh-mgmt-config"
      then compare_mgmt_config cr expected
          (with_config_map (λ e. returned (should_update_config_map e conf)) expected.body) w
      else (returned (false, expected), w)
  should_update_mgmt_object cr expected found b w = (
    map_ran (λ p. (p.0, record expected { body = p.1 }))
        (should_update_mgmt_body found.name expected.body b),
    w,
  )

  -- NVMeshMgmtReconciler as a component.
  unfoldable pub mgmt_component : Component W
  unfolding init_mgmt_body should_update_mgmt_object
  mgmt_component = record {
    init_object = λ cr o. with_body o (init_mgmt_body cr o.name o.body);
    should_update_object =
        λ cr expected found. should_update_mgmt_object cr expected found found.body;
  }
