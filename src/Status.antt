-- ===== src/Status.antt =====
-- pkg/controllers/status_updater.go: the outcome of a reconcile cycle is written into the status of
-- the resource. The proofs are in the children.
pub mod Update
pub mod Managed
use nvmesh_k8s_operator.Prelude.{
  ℕ, String, Bool, true, false, Option, none, some, List, [], ◌∷◌, concat, if◌then◌else◌,
}
use nvmesh_k8s_operator.Prelude.Decimal.{decimal}
use nvmesh_k8s_operator.Api.{NvMesh, Status, ClusterCondition, ready, is_true, is_false}
use nvmesh_k8s_operator.Conditions.{set_status_condition}
use nvmesh_k8s_operator.Kube.{
  Client, Act, Call, Ran, returned, pure, call, ◌>>=◌, ◌>>◌, Err, Result, ok, err, error_text,
  unless, is_not_found, CtrlResult, Outcome, requeue_in,
}
use nvmesh_k8s_operator.Operator.{Operator, Session, with_cr, modify_cr, exchange, get_cr}

-- getManagementGUIURL of nvmesh_controller.go
unfoldable pub get_management_gui_url : NvMesh → String
unfolding decimal
get_management_gui_url cr = elim cr.spec.management.external_ips [
  | none ↦ ""
  | some [] ↦ ""
  | some (address ∷ _) ↦ concat (
      (if cr.spec.management.no_ssl then "http" else "https")
      ∷ "://"
      ∷ address
      ∷ ":"
      ∷ decimal 4000
      ∷ [])
]

-- populateStatusFields
unfoldable pub populate_status_fields : NvMesh → NvMesh
unfolding get_management_gui_url
populate_status_fields cr = record cr {
  status = record (cr.status) { web_ui_url = get_management_gui_url cr };
}

unfoldable pub set_condition : ℕ → ClusterCondition → NvMesh → NvMesh
set_condition now c cr = record cr {
  status = record (cr.status) { conditions = set_status_condition now cr.status.conditions c };
}

abbrev pub ready_condition : ClusterCondition
ready_condition = record {
  type = ready;
  status = is_true;
  last_transition_time = none;
  reason = "";
  message = "";
}

abbrev pub not_ready_condition : (reason : String) → ClusterCondition
not_ready_condition reason = record {
  type = ready;
  status = is_false;
  last_transition_time = none;
  reason = reason;
  message = "";
}

module _ {W : Type 0} (op : Operator W) where
  -- the closure of `UpdateStatus`, over its variable `firstTime` and the session; `handle_err` drops
  -- a not-found error
  unfoldable pub write_status : Status → Session W → Ran (Option Err) × (Bool × Session W)
  write_status status s =
      let ((e, cr), w) =
        op.client.update_nvmesh_status (record (s.cr) { status = status }) s.world in
      (returned (unless is_not_found e), (false, record { cr = cr; world = w }))

  unfoldable pub fetched :
      Status → Session W → Result NvMesh × W → Ran (Option Err) × (Bool × Session W)
  unfolding write_status
  fetched status s (err e, w) =
      (returned (unless is_not_found (some e)), (false, record s { world = w }))
  fetched status s (ok cr, w) = write_status status (record { cr = cr; world = w })

  unfoldable pub attempt : Status → Act (Bool × Session W) (Option Err)
  unfolding write_status fetched
  attempt status (true, s) = write_status status s
  attempt status (false, s) =
      fetched status s (op.client.get_nvmesh s.cr.meta.namespace s.cr.meta.name s.world)

  abbrev pub drop_first_time : Ran (Option Err) × (Bool × Session W) → Ran (Option Err) × Session W
  drop_first_time (r, (_, s)) = (r, s)

  unfoldable pub update_status : Act (Session W) (Option Err)
  unfolding attempt
  update_status s = drop_first_time (op.retry_status.run (attempt s.cr.status) (true, s))

  -- `if err != nil && !IsNotFound(err)`: a failed status update is tried again by the next cycle.
  unfoldable pub after_update : CtrlResult → Option Err → Outcome
  after_update result e = elim (unless is_not_found e) [
    | none ↦ (result, none)
    | some _ ↦ (requeue_in 1, none)
  ]

  -- ManageSuccess for a resource that was found
  unfoldable pub manage_success : CtrlResult → Act (Session W) Outcome
  unfolding set_condition populate_status_fields after_update update_status
  manage_success result = do
    now ← with_cr (λ _. call op.client.now)
    _ ← modify_cr (set_condition now ready_condition)
    _ ← modify_cr populate_status_fields
    e ← update_status
    pure (after_update result e)

  -- ManageSuccess(nil, result)
  unfoldable pub manage_success_nil : CtrlResult → Act (Session W) Outcome
  manage_success_nil result = pure (result, none)

  unfoldable pub manage_error : Err → CtrlResult → Act (Session W) Outcome
  unfolding set_condition populate_status_fields after_update update_status
  manage_error issue result = do
    _ ← with_cr (λ _. call (op.client.record_warning "ProcessingError" (error_text issue)))
    now ← with_cr (λ _. call op.client.now)
    _ ← modify_cr (set_condition now (not_ready_condition (error_text issue)))
    _ ← modify_cr populate_status_fields
    e ← update_status
    pure (after_update result e)
