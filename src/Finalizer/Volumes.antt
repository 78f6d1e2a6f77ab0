-- ===== src/Finalizer/Volumes.antt =====
-- What the checks before a deletion have seen.
use nvmesh_k8s_operator.Prelude.{true, false, List, ◌≡◌, All, is_some}
use nvmesh_k8s_operator.Api.{NvMesh}
use nvmesh_k8s_operator.Kube.{Client, ok, VolumeAttachment, PersistentVolume}
use nvmesh_k8s_operator.Finalizer.{is_nvmesh_attachment, is_nvmesh_volume}

-- No attachment is one of an NVMesh volume, and none has an inline source.
abbrev pub AreForeign : List VolumeAttachment → Type 0
AreForeign l = All (λ a. (is_nvmesh_attachment a ≡ false) × (is_some a.persistent_volume ≡ true)) l

abbrev pub AreOthers : List PersistentVolume → Type 0
AreOthers l = All (λ v. is_nvmesh_volume v ≡ false) l

module _ {W : Type 0} (client : Client W) (cr : NvMesh) where
  -- The API server listed the attachments, none of them an NVMesh one, and then the volumes, none of
  -- them of the NVMesh driver.
  abbrev pub SawNoVolumes : W → Type 0
  SawNoVolumes w =
      let attachments = client.list_volume_attachments w in
      let volumes = client.list_persistent_volumes attachments.1 in
      ((l : List VolumeAttachment) × (attachments.0 ≡ ok l) × AreForeign l)
      × ((l : List PersistentVolume) × (volumes.0 ≡ ok l) × AreOthers l)
