-- ===== src/Components/Compare.antt =====
-- The components compare workloads by paths into Go values; here is what that comes to.
use nvmesh_k8s_operator.Prelude.{◌≡◌}
use nvmesh_k8s_operator.Kube.{Workload}
use nvmesh_k8s_operator.Reflect.Workloads.{
  images_differ, images_or_policies_differ, images_or_replicas_differ, first_differs,
  replicas_differ, or_else_differs, same_image, same_policy,
}
use nvmesh_k8s_operator.Csi.{
  should_update_csi_node_driver_daemon_set, should_update_csi_controller_stateful_set,
}
use nvmesh_k8s_operator.Mgmt.Objects.{
  should_update_management_stateful_set, should_update_mongo_stateful_set,
}

-- The four comparisons by paths are the comparisons of the records' fields: the images of the first
-- containers, then their pull policies or the replicas. They panic exactly where a workload has no
-- container, or where the images are equal and a number of replicas is missing.
pub comparisons_read_fields :
    (expected found : Workload)
    → let images =
        first_differs same_image expected.template.containers found.template.containers in
      let policies =
        first_differs same_policy expected.template.containers found.template.containers in
      let replicas = replicas_differ expected.replicas found.replicas in
      (should_update_csi_node_driver_daemon_set expected found ≡ or_else_differs images policies)
      × (should_update_csi_controller_stateful_set expected found ≡ or_else_differs images replicas)
      × (should_update_management_stateful_set expected found ≡ or_else_differs images replicas)
      × (should_update_mongo_stateful_set expected found ≡ images)
unfolding should_update_csi_node_driver_daemon_set should_update_csi_controller_stateful_set
    should_update_management_stateful_set should_update_mongo_stateful_set
comparisons_read_fields expected found = (
  images_or_policies_differ expected found,
  images_or_replicas_differ expected found,
  images_or_replicas_differ expected found,
  images_differ expected found,
)
