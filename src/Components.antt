-- ===== src/Components.antt =====
-- The operator with its three components (NVMeshCoreReconciler, NVMeshCSIReconciler and
-- NVMeshMgmtReconciler, which `reconcileAllcomponents` of nvmesh_controller.go lists).
pub mod WellBehaved
pub mod Settled
pub mod Compare
use nvmesh_k8s_operator.Operator.{Operator}
use nvmesh_k8s_operator.Core.Component.{core_component}
use nvmesh_k8s_operator.Csi.{csi_component}
use nvmesh_k8s_operator.Mgmt.Objects.{mgmt_component}

unfoldable pub with_components : {W : Type 0} → Operator W → Operator W
unfolding core_component csi_component mgmt_component
with_components op = record op {
  mgmt = mgmt_component op;
  core = core_component;
  csi = csi_component;
}
