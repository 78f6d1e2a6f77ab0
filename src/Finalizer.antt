-- ===== src/Finalizer.antt =====
-- pkg/controllers/finalizer.go: the finalizer is added to a live resource, and taken from a deleted
-- one after the checks on volumes and the uninstall.
pub mod Volumes
pub mod Deletion
use nvmesh_k8s_operator.Prelude.{
  ℕ, String, Bool, true, false, Option, none, some, List, [], ◌∷◌, ◌++◌, concat, join, length, ltb,
  is_some, not, ◌&&◌, ◌==◌, if◌then◌else◌, ◌≡◌,
}
use nvmesh_k8s_operator.Prelude.Decimal.{decimal}
use nvmesh_k8s_operator.Api.{
  NvMesh, ObjectMeta, ClusterCondition, ready, uninstalling, is_true, is_false,
}
use nvmesh_k8s_operator.Slices.{contains_string, remove_string}
use nvmesh_k8s_operator.Kube.{
  Client, Act, pure, panic, call, ◌>>=◌, ◌>>◌, or_return, Err, message, Result, ok, err, CtrlResult,
  Outcome, do_not_requeue, VolumeAttachment, PersistentVolume,
}
use nvmesh_k8s_operator.Operator.{Operator, Session, with_cr, modify_cr, get_cr, exchange}
use nvmesh_k8s_operator.Status.{set_condition, not_ready_condition}
use nvmesh_k8s_operator.Uninstall.Cluster.{uninstall_cluster}

abbrev pub cluster_finalizer_name : String
cluster_finalizer_name = "cluster.finalizers.nvmesh.excelero.com"

abbrev pub csi_driver_name : String
csi_driver_name = "nvmesh-csi.excelero.com"

abbrev pub is_being_deleted : NvMesh → Bool
is_being_deleted cr = is_some cr.meta.deletion_timestamp

unfoldable pub has_finalizer : NvMesh → String → Bool
unfolding contains_string
has_finalizer cr name = contains_string cr.meta.finalizers name

abbrev with_finalizers : List String → NvMesh → NvMesh
with_finalizers l cr = record cr { meta = record (cr.meta) { finalizers = l } }

-- `attachment.Status.Attached == true && attachment.Spec.Attacher == nvmeshCsiDriverName`
abbrev pub is_nvmesh_attachment : VolumeAttachment → Bool
is_nvmesh_attachment a = a.attached && a.attacher == csi_driver_name

abbrev found_first :
    String × String → Option (List (String × String)) → Option (List (String × String))
found_first a none = none
found_first a (some found) = some (a ∷ found)

-- The volumes and nodes of NVMesh attachments. The volume's name is printed for every attachment, and
-- `none` stands for the panic where it has none.
unfoldable pub nvmesh_attachments : List VolumeAttachment → Option (List (String × String))
nvmesh_attachments [] = some []
nvmesh_attachments (a ∷ l) =
    let rest = nvmesh_attachments l in
    elim a.persistent_volume [
      | none ↦ none
      | some volume ↦
          if is_nvmesh_attachment a then found_first (volume, a.node_name) rest else rest
    ]

unfoldable pub attachments_text : String → List (String × String) → String
attachments_text text [] = text
attachments_text text ((volume, node) ∷ l) =
    attachments_text (concat (text ∷ " pvc: " ∷ volume ∷ " on node: " ∷ node ∷ " " ∷ [])) l

-- `pv.Spec.CSI != nil && pv.Spec.CSI.Driver == nvmeshCsiDriverName`
abbrev pub is_nvmesh_volume : PersistentVolume → Bool
is_nvmesh_volume v = elim v.csi_driver [ none ↦ false | some driver ↦ driver == csi_driver_name ]

unfoldable pub nvmesh_volumes : List PersistentVolume → List String
nvmesh_volumes [] = []
nvmesh_volumes (v ∷ l) =
    let rest = nvmesh_volumes l in if is_nvmesh_volume v then v.name ∷ rest else rest

unfoldable pub attachments_error : List (String × String) → Option Err
unfolding attachments_text decimal
attachments_error [] = none
attachments_error (a ∷ l) = some (
    message (
      attachments_text (concat ("Found " ∷ decimal (length (a ∷ l)) ∷ " attachments: " ∷ []))
        (a ∷ l)))

unfoldable pub volumes_error : List String → Option Err
unfolding join decimal
volumes_error [] = none
volumes_error (n ∷ l) = some (
    message (
      concat (
        "Found "
        ∷ decimal (length (n ∷ l))
        ∷ " NVMesh PersistentVolumes: "
        ∷ join ", " (n ∷ l)
        ∷ [])))

module _ {W : Type 0} (client : Client W) where
  unfoldable pub answer_attachments : Option (List (String × String)) → Act W (Option Err)
  unfolding attachments_error
  answer_attachments none = panic
  answer_attachments (some found) = pure (attachments_error found)

  unfoldable pub check_attachments : Result (List VolumeAttachment) → Act W (Option Err)
  unfolding nvmesh_attachments answer_attachments
  check_attachments (err e) = pure (some (Err.wrap e "Failed to list VolumeAttachments"))
  check_attachments (ok l) = answer_attachments (nvmesh_attachments l)

  unfoldable pub verify_no_volume_attachments : Act W (Option Err)
  unfolding check_attachments
  verify_no_volume_attachments = call client.list_volume_attachments >>= check_attachments

  unfoldable pub check_volumes : Result (List PersistentVolume) → Act W (Option Err)
  unfolding nvmesh_volumes volumes_error
  check_volumes (err e) = pure (some (Err.wrap e "Failed to list PersistentVolumes"))
  check_volumes (ok l) = pure (volumes_error (nvmesh_volumes l))

  unfoldable pub verify_no_persistent_volumes : Act W (Option Err)
  unfolding check_volumes
  verify_no_persistent_volumes = call client.list_persistent_volumes >>= check_volumes

  -- An error is only logged where `IgnoreVolumeAttachmentOnDelete` is set; both checks read that field.
  unfoldable pub unless_ignored : NvMesh → (text : String) → Option Err → Option Err
  unless_ignored cr text none = none
  unless_ignored cr text (some e) =
      if cr.spec.operator.ignore_volume_attachment_on_delete then none else some (Err.wrap e text)

  unfoldable pub check_not_attached : NvMesh → Act W (Option Err)
  unfolding verify_no_volume_attachments unless_ignored
  check_not_attached cr = do
    e ← verify_no_volume_attachments
    pure (
        unless_ignored cr
          "Cannot delete NVMesh cluster while volumes are attached. The following volumes are still attached: "
          e)

  unfoldable pub check_not_provisioned : NvMesh → Act W (Option Err)
  unfolding verify_no_persistent_volumes unless_ignored
  check_not_provisioned cr = do
    e ← verify_no_persistent_volumes
    pure (
        unless_ignored cr
          "Cannot delete NVMesh cluster while NVMesh PersistentVolumes are provisioned" e)

  unfoldable pub is_allowed_to_delete_cluster : NvMesh → Act W (Option Err)
  unfolding check_not_attached check_not_provisioned
  is_allowed_to_delete_cluster cr = or_return (check_not_attached cr) (check_not_provisioned cr)

abbrev pub uninstalling_condition : ClusterCondition
uninstalling_condition = record {
  type = uninstalling;
  status = is_true;
  last_transition_time = none;
  reason = "";
  message = "";
}

module _ {W : Type 0} (op : Operator W) where
  unfoldable pub add_finalizer_and_update : String → Act (Session W) (Option Err)
  add_finalizer_and_update name = do
    _ ← modify_cr (λ cr. with_finalizers (cr.meta.finalizers ++ name ∷ []) cr)
    exchange op.client.update_nvmesh

  -- The name that it is given is not read.
  unfoldable pub remove_finalizer_and_update : String → Act (Session W) (Option Err)
  unfolding remove_string
  remove_finalizer_and_update name = do
    _ ←
        modify_cr
          (λ cr. with_finalizers (remove_string cr.meta.finalizers cluster_finalizer_name) cr)
    exchange op.client.update_nvmesh

  -- The uninstall is to go on: the conditions are written, and a failed status update is only logged.
  unfoldable pub report_uninstalling : CtrlResult → Act (Session W) Outcome
  unfolding set_condition
  report_uninstalling result = do
    now ← with_cr (λ _. call op.client.now)
    _ ← modify_cr (set_condition now (not_ready_condition ""))
    later ← with_cr (λ _. call op.client.now)
    _ ← modify_cr (set_condition later uninstalling_condition)
    _ ← exchange op.client.update_nvmesh_status
    pure (result, none)

  unfoldable pub release : Act (Session W) Outcome
  unfolding remove_finalizer_and_update
  release = do e ← remove_finalizer_and_update cluster_finalizer_name; pure (do_not_requeue, e)

  unfoldable pub after_uninstall : Outcome → Act (Session W) Outcome
  unfolding report_uninstalling release
  after_uninstall (result, some e) = pure (result, some e)
  after_uninstall (result, none) = if result.requeue then report_uninstalling result else release

  unfoldable pub after_checks : Option Err → Act (Session W) Outcome
  unfolding uninstall_cluster after_uninstall
  after_checks (some e) = pure (do_not_requeue, some e)
  after_checks none = uninstall_cluster op >>= after_uninstall

  unfoldable pub do_before_deleting_nvmesh : Act (Session W) Outcome
  unfolding is_allowed_to_delete_cluster after_checks
  do_before_deleting_nvmesh = with_cr (is_allowed_to_delete_cluster op.client) >>= after_checks

  unfoldable pub register_finalizer : Act (Session W) Outcome
  unfolding add_finalizer_and_update
  register_finalizer = do
    e ← add_finalizer_and_update cluster_finalizer_name
    pure (do_not_requeue, e)

  unfoldable pub handle_finalizer : Act (Session W) Outcome
  unfolding has_finalizer do_before_deleting_nvmesh register_finalizer
  handle_finalizer = do
    cr ← get_cr
    if is_being_deleted cr
        then (if has_finalizer cr cluster_finalizer_name
            then do_before_deleting_nvmesh
            else pure (do_not_requeue, none))
        else (if has_finalizer cr cluster_finalizer_name
            then pure (do_not_requeue, none)
            else register_finalizer)
