-- ===== src/Finalizer/Deletion.antt =====
-- The finalizer of a deleted resource is released only after the uninstall.
use nvmesh_k8s_operator.Prelude.{◌≡◌}
use nvmesh_k8s_operator.Kube.{Ran, Outcome}
use nvmesh_k8s_operator.Operator.{Operator, Session}
use nvmesh_k8s_operator.Uninstall.Order.{IsUninstalled, AreDisabled}
use nvmesh_k8s_operator.Finalizer.{release}

module _ {W : Type 0} (op : Operator W) where
  -- The run ends as the release of the finalizer from a session whose resource is uninstalled.
  abbrev pub IsReleased : Ran Outcome × Session W → Type 0
  IsReleased out = (s : Session W) × (out ≡ release op s) × (IsUninstalled s.cr × AreDisabled s.cr)
