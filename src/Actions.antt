-- ===== src/Actions.antt =====
-- The actions of the resource, in pkg/controllers/nvmesh_actions.go: the pending ones are handled in
-- their order, and the statuses of those that are gone are removed.
pub mod Removal
pub mod Stale
use nvmesh_k8s_operator.Prelude.{
  ℕ, zero, suc, ◌-◌, String, Bool, true, false, Option, none, some, List, [], ◌∷◌, concat, length,
  set, ltb, any, is_some, not, ◌==◌, ◌||◌, if◌then◌else◌,
}
use nvmesh_k8s_operator.Prelude.Dict.{Dict, remove}
use nvmesh_k8s_operator.Api.{NvMesh, ClusterAction, Spec, Status}
use nvmesh_k8s_operator.Kube.{
  Act, pure, panic, ◌>>=◌, ◌>>◌, Err, message, unless, is_not_found, CtrlResult, Outcome,
  do_not_requeue, requeue_with_default_back_off,
}
use nvmesh_k8s_operator.Operator.{Operator, Session, get_cr, modify_cr, exchange}
use nvmesh_k8s_operator.Status.{update_status}
use nvmesh_k8s_operator.CollectLogs.{Handled, handle_collect_logs}

abbrev pub no_action : ClusterAction
no_action = record { name = ""; args = [] }

-- `make([]ClusterAction, n)`
unfoldable pub make_actions : ℕ → List ClusterAction
make_actions zero = []
make_actions (suc n) = no_action ∷ make_actions n

-- `newList[i] = item`; `none` for an index out of range
unfoldable pub assign : List ClusterAction → ℕ → ClusterAction → Option (List ClusterAction)
assign l i item = if ltb i (length l) then some (set l i item) else none

-- One step of the loop of `removeAction`. Where `i > indexToRemove`, `i - 1` is not below 0.
unfoldable pub remove_step :
    (index i : ℕ) → ClusterAction → List ClusterAction → Option (List ClusterAction)
unfolding assign
remove_step index i item l =
    if ltb i index then assign l i item else if ltb index i then assign l (i - 1) item else some l

-- the loop of `removeAction` from index `i` on
unfoldable pub remove_loop :
    (index i : ℕ) → List ClusterAction → List ClusterAction → Option (List ClusterAction)
unfolding remove_step
remove_loop index i [] l = some l
remove_loop index i (item ∷ items) l = elim (remove_step index i item l) [
  | none ↦ none
  | some l' ↦ remove_loop index (suc i) items l'
]

-- `removeAction` on the list; `none` for a panic: an index out of range, or a length below 0.
unfoldable pub remove_action : ℕ → List ClusterAction → Option (List ClusterAction)
unfolding make_actions remove_loop
remove_action index [] = none
remove_action index (a ∷ actions) =
    remove_loop index 0 (a ∷ actions) (make_actions (length actions))

abbrev pub with_actions : List ClusterAction → NvMesh → NvMesh
with_actions l cr = record cr { spec = record (cr.spec) { actions = l } }

abbrev pub has_action : List ClusterAction → String → Bool
has_action actions name = any (λ a. a.name == name) actions

-- the loop of `removeFinishedActionStatuses`: the statuses that are kept, and whether one was deleted
unfoldable pub drop_stale : List ClusterAction → Dict (Dict String) → Dict (Dict String) × Bool
drop_stale actions [] = ([], false)
drop_stale actions ((name, status) ∷ d) =
    let (kept, dropped) = drop_stale actions d in
    if has_action actions name then ((name, status) ∷ kept, dropped) else (kept, true)

abbrev with_statuses : Dict (Dict String) → NvMesh → NvMesh
with_statuses d cr = record cr { status = record (cr.status) { actions_status = d } }

-- hasActions
abbrev pub has_actions : NvMesh → Bool
has_actions cr = ltb 0 (length cr.spec.actions)

module _ {W : Type 0} (op : Operator W) where
  unfoldable pub update_nvmesh_cluster_object : Act (Session W) (Option Err)
  update_nvmesh_cluster_object = do
    e ← exchange op.client.update_nvmesh
    pure (unless is_not_found e)

  unfoldable pub handle_action : ClusterAction → Act (Session W) Handled
  unfolding handle_collect_logs
  handle_action action =
      if action.name == "collect-logs"
      then handle_collect_logs op.client action
      else pure
          (false, (do_not_requeue, some (message (concat ("Unknown Action " ∷ action.name ∷ [])))))

  -- The action at an index of the list as it is now is removed, and the resource written; a failed
  -- write is only logged.
  unfoldable pub drop_action : ℕ → Act (Session W) (Unit {0})
  unfolding remove_action update_nvmesh_cluster_object
  drop_action index = do
    cr ← get_cr
    elim (remove_action index cr.spec.actions) [
      | none ↦ panic
      | some l ↦ modify_cr (with_actions l) >> update_nvmesh_cluster_object >> pure tt
    ]

  unfoldable pub after_action :
      ℕ → (rest : Act (Session W) Outcome) → Handled → Act (Session W) Outcome
  unfolding drop_action update_status
  after_action index rest (should_remove, (result, e)) = do
    _ ← (if should_remove then drop_action index else pure tt)
    if result.requeue
        then (update_status op >> pure (result, e))
        else if is_some e
        then pure (result, e)
        else rest

  -- the loop of `handleActions`, over the list as it was at its start
  unfoldable pub handle_pending : ℕ → List ClusterAction → Act (Session W) Outcome
  unfolding handle_action after_action
  handle_pending index [] = pure (do_not_requeue, none)
  handle_pending index (action ∷ actions) =
      handle_action action >>= after_action index (handle_pending (suc index) actions)

  unfoldable pub handle_actions : Act (Session W) Outcome
  unfolding handle_pending
  handle_actions = do cr ← get_cr; handle_pending 0 cr.spec.actions

  unfoldable pub remove_finished_action_statuses : Act (Session W) CtrlResult
  unfolding drop_stale update_status
  remove_finished_action_statuses = do
    cr ← get_cr
    let (kept, dropped) = drop_stale cr.spec.actions cr.status.actions_status in
        if dropped
        then (modify_cr (with_statuses kept)
            >> update_status op
            >> pure requeue_with_default_back_off)
        else pure do_not_requeue
