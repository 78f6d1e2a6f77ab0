-- ===== src/Tests/Deployed.antt =====
-- A cycle of the components in the small world.
use nvmesh_k8s_operator.Prelude.{true, false, some, [], ◌∷◌, refl, split}
use nvmesh_k8s_operator.Kube.{reason_of, kind_of, do_not_requeue}
use nvmesh_k8s_operator.Objects.{object_namespace, reconcile_object}
use nvmesh_k8s_operator.Resources.{list_files_in_dir}
use nvmesh_k8s_operator.Slices.{string_in_slice}
use nvmesh_k8s_operator.Yaml.{yaml_file_to_objects}
use nvmesh_k8s_operator.Reconcile.{reconcile_all_components}
use nvmesh_k8s_operator.Reconcile.Deployed.{AreDeployed, reconcile_all_components-AreDeployed}
use nvmesh_k8s_operator.Tests.World.{
  file_contents, decode_document, look_up, with_object, without, test_quiet, test_files,
  test_component-IsWellBehaved,
}
use nvmesh_k8s_operator.Tests.Reconciler.{test_operator, deleted_cr}

reconcile_all_components-AreDeployed_example :
    AreDeployed test_operator test_quiet test_files test_component-IsWellBehaved
      test_component-IsWellBehaved deleted_cr
      (λ dir. ("resources", some true) ∷ ("resources/settings.yaml", some false) ∷ [])
      (λ dir w. refl)
      (reconcile_all_components test_operator deleted_cr []).1
unfolding reconcile_all_components list_files_in_dir yaml_file_to_objects file_contents split
    decode_document reconcile_object look_up with_object reason_of kind_of object_namespace
    string_in_slice without
reconcile_all_components-AreDeployed_example =
    reconcile_all_components-AreDeployed test_operator test_quiet test_files
      test_component-IsWellBehaved test_component-IsWellBehaved deleted_cr
      (λ dir. ("resources", some true) ∷ ("resources/settings.yaml", some false) ∷ [])
      (λ dir w. refl) refl refl [] do_not_requeue refl
