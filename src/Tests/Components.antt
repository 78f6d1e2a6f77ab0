-- ===== src/Tests/Components.antt =====
-- The theorems about the three components, applied in the small world.
use Prim.Native.Char.{Char, code}
use nvmesh_k8s_operator.Prelude.{
  true, false, none, some, [], ◌∷◌, ◌≡◌, ◌≢◌, refl, arith, ap, nat_eq,
}
use nvmesh_k8s_operator.Prelude.Dict.{Dict, get}
use nvmesh_k8s_operator.Kube.{
  returned, panicked, ok, Obj, Workload, unset, stateful_set, config_map,
}
use nvmesh_k8s_operator.Jobs.{get_new_job, new_container}
use nvmesh_k8s_operator.Objects.{get_generic_object, make_sure_object_exists, prepare}
use nvmesh_k8s_operator.Objects.Quiet.{IsWellBehaved}
use nvmesh_k8s_operator.Objects.Idle.{IsSettled, make_sure_object_exists-idle}
use nvmesh_k8s_operator.Core.{config_string_to_dict, config_dict_to_string}
use nvmesh_k8s_operator.Core.RoundTrip.{get-config_round_trip}
use nvmesh_k8s_operator.Core.Component.{core_component}
use nvmesh_k8s_operator.Core.Settled.{HasDistinctKeys}
use nvmesh_k8s_operator.Csi.{
  csi_component, should_update_csi_node_driver_daemon_set,
  should_update_csi_controller_stateful_set,
}
use nvmesh_k8s_operator.Mgmt.Objects.{
  mgmt_component, should_update_management_stateful_set, should_update_mongo_stateful_set,
}
use nvmesh_k8s_operator.Reflect.Workloads.{first_differs, or_else_differs, same_image, same_policy}
use nvmesh_k8s_operator.Components.WellBehaved.{components-AreWellBehaved}
use nvmesh_k8s_operator.Components.Settled.{components-AreSettled}
use nvmesh_k8s_operator.Components.Compare.{comparisons_read_fields}
use nvmesh_k8s_operator.Tests.World.{World, test_client, test_quiet, settings_map}
use nvmesh_k8s_operator.Tests.Reconciler.{test_operator, deleted_cr}

components-AreWellBehaved_example :
    IsWellBehaved test_quiet (mgmt_component test_operator)
    × IsWellBehaved test_quiet core_component
    × IsWellBehaved test_quiet csi_component
components-AreWellBehaved_example = components-AreWellBehaved test_operator test_quiet

components-AreSettled_example :
    IsSettled HasDistinctKeys (mgmt_component test_operator)
    × IsSettled HasDistinctKeys (core_component {W = World})
    × IsSettled HasDistinctKeys (csi_component {W = World})
components-AreSettled_example = components-AreSettled test_operator

abbrev csi_map : Obj
csi_map = record settings_map {
  namespace = "default";
  labels =
      ("app.kubernetes.io/managed-by", "nvmesh-operator")
      ∷ ("nvmesh.excelero.com/cluster-name", "cluster")
      ∷ [];
  owner = some "cluster";
  body = config_map (
      ("key", "value")
      ∷ ("management.protocol", "https")
      ∷ ("management.servers", "nvmesh-management-gui.default.svc.cluster.local:4000")
      ∷ []);
}

make_sure_object_exists-idle_example :
    make_sure_object_exists test_client (some csi_component) deleted_cr settings_map (csi_map ∷ [])
    ≡ (returned none, csi_map ∷ [])
unfolding get prepare csi_component get_generic_object nvmesh_k8s_operator.Tests.World.look_up
    nvmesh_k8s_operator.Jobs.get_operator_labels nvmesh_k8s_operator.Prelude.Dict.put
    nvmesh_k8s_operator.Kube.kind_of nvmesh_k8s_operator.Objects.object_namespace
    nvmesh_k8s_operator.Slices.string_in_slice
make_sure_object_exists-idle_example =
    make_sure_object_exists-idle test_client csi_component (components-AreSettled test_operator).2
      deleted_cr settings_map csi_map csi_map (csi_map ∷ []) (refl, tt) refl refl refl refl

other_char : (c d : Char) → nat_eq (code c) (code d) ≡ false → c ≢ d
other_char c d h e = ground (arith, ap code e)

get-config_round_trip_example :
    get (config_string_to_dict (config_dict_to_string (("B", "x=y") ∷ ("A", "") ∷ []))) "B"
    ≡ get (("B", "x=y") ∷ ("A", "") ∷ []) "B"
get-config_round_trip_example =
    get-config_round_trip ("B", "x=y") (("A", "") ∷ []) "B"
      (
        (
          (other_char "B" "=" refl, tt),
          (other_char "B" "\n" refl, tt),
          (other_char "x" "\n" refl, (other_char "=" "\n" refl, (other_char "y" "\n" refl, tt))),
        ),
        (((other_char "A" "=" refl, tt), (other_char "A" "\n" refl, tt), tt), tt),
      )

abbrev controller : Workload
controller = record {
  replicas = some 1;
  annotations = [];
  template = record (get_new_job deleted_cr "csi" "").template {
    containers = new_container "driver" "excelero/nvmesh-csi-driver:v1" unset ∷ [];
  };
  claims = [];
}

abbrev scaled : Workload
scaled = record controller { replicas = some 2 }

comparisons_read_fields_example :
    (should_update_csi_node_driver_daemon_set controller scaled
      ≡ or_else_differs
          (first_differs same_image controller.template.containers scaled.template.containers)
          (first_differs same_policy controller.template.containers scaled.template.containers))
    × (should_update_csi_controller_stateful_set controller scaled ≡ returned true)
    × (should_update_management_stateful_set controller scaled ≡ returned true)
    × (should_update_mongo_stateful_set controller scaled ≡ returned false)
comparisons_read_fields_example = comparisons_read_fields controller scaled
