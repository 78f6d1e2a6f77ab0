-- ===== src/Reconcile.antt =====
-- `Reconcile` of pkg/controllers/nvmesh_controller.go, one cycle of the controller, with `isValid` of
-- validation.go. The call of `stopAllUnstructuredWatchers` is left out: no code of the operator makes a
-- watcher.
pub mod Components
pub mod Errors
pub mod Deployed
use nvmesh_k8s_operator.Prelude.{
  ℕ, String, Bool, true, false, Option, none, some, List, [], ◌∷◌, concat, ltb, nat_eq, not, ◌&&◌,
  ◌==◌, if◌then◌else◌,
}
use nvmesh_k8s_operator.Api.{empty_nvmesh, NvMesh, Spec, CoreSpec, ManagementSpec, CsiSpec}
use nvmesh_k8s_operator.Kube.{
  Act, Ran, pure, call, ◌>>=◌, ◌>>◌, or_return, Err, message, Result, ok, err, is_not_found,
  CtrlResult, Outcome, do_not_requeue, requeue_with_default_back_off,
}
use nvmesh_k8s_operator.Objects.{make_sure_object_exists}
use nvmesh_k8s_operator.Resources.{create_objects_from_dir, collect_error, first_error}
use nvmesh_k8s_operator.Operator.{Operator, Session, with_cr, get_cr, modify_cr}
use nvmesh_k8s_operator.Status.{manage_success, manage_success_nil, manage_error}
use nvmesh_k8s_operator.Uninstall.{
  not_again, remove_core, remove_csi, core_assets_location, csi_assets_location,
  get_cluster_service_account, get_nvmesh_cluster_role, get_nvmesh_cluster_role_binding,
}
use nvmesh_k8s_operator.Finalizer.{handle_finalizer}
use nvmesh_k8s_operator.Actions.{has_actions, handle_actions, remove_finished_action_statuses}
use nvmesh_k8s_operator.Mgmt.{reconcile_management}

abbrev default_registry : String
default_registry = "registry.excelero.com"

abbrev or_default : String → String → String
or_default s d = if s == "" then d else s

abbrev or_one : ℕ → ℕ
or_one n = if nat_eq n 0 then 1 else n

-- initializeEmptyFieldsOnCustomResource
unfoldable pub initialize_empty_fields : (default_tag : String) → NvMesh → NvMesh
initialize_empty_fields default_tag cr = record cr {
  spec = record (cr.spec) {
    core = record (cr.spec.core) {
      image_registry = or_default cr.spec.core.image_registry default_registry;
      image_version_tag = or_default cr.spec.core.image_version_tag default_tag;
    };
    management = record (cr.spec.management) {
      image_registry = or_default cr.spec.management.image_registry default_registry;
      replicas = or_one cr.spec.management.replicas;
    };
    csi = record (cr.spec.csi) { controller_replicas = or_one cr.spec.csi.controller_replicas };
  };
}

-- validationError, with the two texts of `isValid`
unfoldable pub validation_error : NvMesh → Err
validation_error cr = message (
    concat (
      "Validation failed for NVMesh " ∷ cr.meta.name
      ∷ ". Missing MongoDB address for externally deployed MongoDB cluster. "
      ∷ "spec.management.mongoDB.external=true but spec.management.mongoDB.address is not specified. When MongoDB is deployed manually the mongoConnection address must be specified in MongoDB.Address. i.e: \"mongo-svc.default.svc.cluster.local:27017\"."
      ∷ []))

unfoldable pub is_valid : NvMesh → Option Err
unfolding validation_error
is_valid cr =
    if cr.spec.management.mongo_db.external && cr.spec.management.mongo_db.address == ""
    then some (validation_error cr)
    else none

-- The two results of a component that `reconcileAllcomponents` keeps: the delay starts at 0.
unfoldable pub merge_result : CtrlResult → CtrlResult → CtrlResult
merge_result minimal result =
    if result.requeue
    then record {
      requeue = true;
      requeue_after =
          if ltb result.requeue_after minimal.requeue_after
          then result.requeue_after
          else minimal.requeue_after;
    }
    else minimal

module _ {W : Type 0} (op : Operator W) where
  unfoldable pub make_sure_service_account_exists : NvMesh → Act W (Option Err)
  unfolding make_sure_object_exists get_cluster_service_account get_nvmesh_cluster_role
      get_nvmesh_cluster_role_binding
  make_sure_service_account_exists cr =
      or_return (make_sure_object_exists op.client none cr (get_cluster_service_account cr)) (
        or_return (make_sure_object_exists op.client none cr get_nvmesh_cluster_role)
          (make_sure_object_exists op.client none cr (get_nvmesh_cluster_role_binding cr)))

  -- Reconcile of core_controller.go
  unfoldable pub reconcile_core : NvMesh → Act W Outcome
  unfolding create_objects_from_dir remove_core
  reconcile_core cr = not_again (
      if cr.spec.core.disabled
      then remove_core op cr
      else create_objects_from_dir op.client cr op.core core_assets_location true)

  -- Reconcile of csi_controller.go
  unfoldable pub reconcile_csi : NvMesh → Act W Outcome
  unfolding create_objects_from_dir remove_csi
  reconcile_csi cr = not_again (
      if cr.spec.csi.disabled
      then remove_csi op cr
      else create_objects_from_dir op.client cr op.csi csi_assets_location true)

  -- A component's error is put before those of the later components.
  abbrev pub keep_error : Option Err → CtrlResult × List Err → Act W (CtrlResult × List Err)
  keep_error e (final, errors) = pure (final, collect_error e errors)

  -- What follows a component in the loop of `reconcileAllcomponents`, over the result so far.
  unfoldable pub component_reconciled :
      (rest : CtrlResult → Act W (CtrlResult × List Err))
      → CtrlResult
      → Outcome
      → Act W (CtrlResult × List Err)
  unfolding merge_result collect_error
  component_reconciled rest minimal (result, e) =
      rest (merge_result minimal result) >>= keep_error e

  unfoldable pub reconcile_components :
      NvMesh → List (NvMesh → Act W Outcome) → CtrlResult → Act W (CtrlResult × List Err)
  unfolding component_reconciled
  reconcile_components cr [] minimal = pure (minimal, [])
  reconcile_components cr (component ∷ components) minimal =
      component cr >>= component_reconciled (reconcile_components cr components) minimal

  abbrev pub merged : CtrlResult × List Err → Act W Outcome
  merged (result, errors) = pure (result, first_error errors)

  unfoldable pub reconcile_all_components : NvMesh → Act W Outcome
  unfolding reconcile_management reconcile_core reconcile_csi reconcile_components first_error
  reconcile_all_components cr =
      reconcile_components cr (reconcile_management op ∷ reconcile_core ∷ reconcile_csi ∷ [])
        do_not_requeue
      >>= merged

  -- The tail of `Reconcile`, after the components: an error beside no requeue is dropped.
  unfoldable pub actions_handled : Outcome → Act (Session W) Outcome
  unfolding manage_success manage_error
  actions_handled (result, some e) = manage_error op e result
  actions_handled (result, none) =
      if result.requeue then manage_success op result else manage_success op do_not_requeue

  unfoldable pub handle_pending_actions : Act (Session W) Outcome
  unfolding handle_actions actions_handled manage_success
  handle_pending_actions = do
    cr ← get_cr
    if has_actions cr
        then (handle_actions op >>= actions_handled)
        else manage_success op do_not_requeue

  unfoldable pub statuses_removed : CtrlResult → Act (Session W) Outcome
  unfolding manage_success handle_pending_actions
  statuses_removed result =
      if result.requeue then manage_success op result else handle_pending_actions

  -- The outcome of `ManageError` is dropped: the components' result is returned.
  abbrev components_requeued : CtrlResult → Option Err → Act (Session W) Outcome
  components_requeued result none = pure (result, none)
  components_requeued result (some e) = manage_error op e result >>= λ (_, e'). pure (result, e')

  unfoldable pub components_reconciled : Outcome → Act (Session W) Outcome
  unfolding manage_error remove_finished_action_statuses statuses_removed
  components_reconciled (result, e) =
      if result.requeue
      then components_requeued result e
      else (remove_finished_action_statuses op >>= statuses_removed)

  unfoldable pub finalizer_handled : Outcome → Act (Session W) Outcome
  unfolding manage_error manage_success reconcile_all_components components_reconciled
  finalizer_handled (result, some e) = manage_error op e requeue_with_default_back_off
  finalizer_handled (result, none) =
      if result.requeue
      then manage_success op result
      else (with_cr reconcile_all_components >>= components_reconciled)

  unfoldable pub account_exists : Option Err → Act (Session W) Outcome
  unfolding manage_error handle_finalizer finalizer_handled
  account_exists (some e) = manage_error op e requeue_with_default_back_off
  account_exists none = handle_finalizer op >>= finalizer_handled

  unfoldable pub validated : Option Err → Act (Session W) Outcome
  unfolding manage_error make_sure_service_account_exists account_exists
  validated (some e) = manage_error op e requeue_with_default_back_off
  validated none = with_cr make_sure_service_account_exists >>= account_exists

  unfoldable pub fetched_cr : Act (Session W) Outcome
  unfolding initialize_empty_fields is_valid validated
  fetched_cr = do
    _ ← modify_cr (initialize_empty_fields op.options.default_core_image_tag)
    cr ← get_cr
    validated (is_valid cr)

  -- What follows the read; a failed one leaves the empty resource.
  unfoldable pub read_cr : Result NvMesh × W → Ran Outcome × Session W
  unfolding manage_success_nil manage_error fetched_cr
  read_cr (ok cr, w) = fetched_cr (record { cr = cr; world = w })
  read_cr (err e, w) =
      if is_not_found e
      then manage_success_nil op do_not_requeue (record { cr = empty_nvmesh; world = w })
      else manage_error op e requeue_with_default_back_off (record { cr = empty_nvmesh; world = w })

  unfoldable pub reconcile : (namespace name : String) → W → Ran Outcome × Session W
  unfolding read_cr
  reconcile namespace name w = read_cr (op.client.get_nvmesh namespace name w)
