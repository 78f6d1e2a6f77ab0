-- ===== src/Status/Managed.antt =====
-- The status that the end of a cycle writes.
use nvmesh_k8s_operator.Prelude.{ℕ, true, ◌≡◌, refl, arith, eq_iff}
use nvmesh_k8s_operator.Api.{NvMesh, ClusterCondition, ready, is_true, is_false}
use nvmesh_k8s_operator.Conditions.{status_eq, is_status_condition_true, is_status_condition_false}
use nvmesh_k8s_operator.Conditions.Laws.{present-set}
use nvmesh_k8s_operator.Kube.{Act, pure, ◌>>=◌, Err, error_text, CtrlResult, Outcome}
use nvmesh_k8s_operator.Operator.{Operator, Session}
use nvmesh_k8s_operator.Status.{
  ready_condition, not_ready_condition, set_condition, populate_status_fields, update_status,
  after_update, manage_success, manage_error, get_management_gui_url,
}

module _ {W : Type 0} (op : Operator W) where
  -- The end of both functions: the status update, from a session with these conditions.
  abbrev pub write_out : CtrlResult → Act (Session W) Outcome
  write_out result = update_status op >>= λ e. pure (after_update op result e)

  -- The specification and the statuses of the actions are those from before.
  abbrev pub IsSameBut : NvMesh → NvMesh → Type 0
  IsSameBut cr before =
      (cr.spec ≡ before.spec)
      × (cr.status.actions_status ≡ before.status.actions_status)
      × (cr.status.web_ui_url ≡ get_management_gui_url before)

  set-ready :
      (now : ℕ) (cr : NvMesh) (c : ClusterCondition)
      → c.type ≡ ready
      → (is_status_condition_true (set_condition now c cr).status.conditions ready
          ≡ status_eq c.status is_true)
        × (is_status_condition_false (set_condition now c cr).status.conditions ready
            ≡ status_eq c.status is_false)
  unfolding set_condition is_status_condition_true is_status_condition_false
  set-ready now cr c h = (
    ground (arith, present-set now cr.status.conditions c ready is_true, h, eq_iff c.type ready),
    ground (arith, present-set now cr.status.conditions c ready is_false, h, eq_iff c.type ready),
  )

  set-IsSameBut :
      (now : ℕ) (cr : NvMesh) (c : ClusterCondition)
      → IsSameBut (populate_status_fields (set_condition now c cr)) cr
  unfolding set_condition populate_status_fields get_management_gui_url
  set-IsSameBut now cr c = (refl, refl, refl)

  -- `ManageSuccess` ends as the status update from a session where the condition Ready is true, the address
  -- of the management's page is filled in, and the specification and the actions' statuses are as before.
  pub manage_success-writes :
      (result : CtrlResult) (s : Session W)
      → (s' : Session W) × (manage_success op result s ≡ write_out result s')
        × (is_status_condition_true s'.cr.status.conditions ready ≡ true)
        × IsSameBut s'.cr s.cr
  unfolding manage_success populate_status_fields
  manage_success-writes result s =
      let (now, w) = op.client.now s.world in
      (
        record { cr = populate_status_fields (set_condition now ready_condition s.cr); world = w },
        refl,
        (set-ready now s.cr ready_condition refl).0,
        set-IsSameBut now s.cr ready_condition,
      )

  -- `ManageError` ends as the status update from a session where the condition Ready is false, the address
  -- of the management's page is filled in, and the specification and the actions' statuses are as before.
  pub manage_error-writes :
      (issue : Err) (result : CtrlResult) (s : Session W)
      → (s' : Session W) × (manage_error op issue result s ≡ write_out result s')
        × (is_status_condition_false s'.cr.status.conditions ready ≡ true)
        × IsSameBut s'.cr s.cr
  unfolding manage_error populate_status_fields
  manage_error-writes issue result s =
      let (now, w) =
        op.client.now (op.client.record_warning "ProcessingError" (error_text issue) s.world).1 in
      let c = not_ready_condition (error_text issue) in
      (
        record { cr = populate_status_fields (set_condition now c s.cr); world = w },
        refl,
        (set-ready now s.cr c refl).1,
        set-IsSameBut now s.cr c,
      )
