-- ===== src/Stages.antt =====
-- The loop of `uninstallCluster` in pkg/controllers/uninstall.go over its stages (`Task` of
-- nvmesh_actions.go): a finished stage is passed over, and the loop ends early where a stage asks to
-- be run again or fails.
pub mod Order
pub mod Step
pub mod Progress
pub mod Resume
pub mod Cycles
use nvmesh_k8s_operator.Prelude.{
  String, Bool, true, false, Option, none, some, List, [], ◌∷◌, if◌then◌else◌,
}
use nvmesh_k8s_operator.Api.{NvMesh, ClusterAction}
use nvmesh_k8s_operator.Kube.{Act, pure, ◌>>=◌, ◌>>◌, Err, CtrlResult, Outcome, do_not_requeue}
use nvmesh_k8s_operator.Operator.{Session}
use nvmesh_k8s_operator.Tasks.{task_is_finished, set_task_started, set_task_finished}

pub record Task (W : Type 0) : Type 0 where
  pub name : String
  pub run : Act (Session W) Outcome

-- `uninstallAction`
abbrev pub uninstall_action : ClusterAction
uninstall_action = record { name = "uninstall"; args = [] }

module _ {W : Type 0} where
  -- What follows a stage's run: an early return, or the rest of the loop. An error beside a requeue
  -- is dropped.
  unfoldable pub stage_end :
      (name : String)
      → (rest : Act (Session W) (Option Outcome)) → Outcome
      → Act (Session W) (Option Outcome)
  stage_end name rest (result, e) = if result.requeue then pure (some (result, none)) else elim e [
    | some x ↦ pure (some (do_not_requeue, some x))
    | none ↦ set_task_finished uninstall_action name >> rest
  ]

  unfoldable pub stage_run :
      Task W → (rest : Act (Session W) (Option Outcome)) → Act (Session W) (Option Outcome)
  unfolding stage_end
  stage_run t rest = do
    _ ← set_task_started uninstall_action t.name
    outcome ← t.run
    stage_end t.name rest outcome

  unfoldable pub stage_step :
      Task W → (rest : Act (Session W) (Option Outcome)) → Act (Session W) (Option Outcome)
  unfolding stage_run
  stage_step t rest = do
    finished ← task_is_finished uninstall_action t.name
    if finished then rest else stage_run t rest

  -- `some` outcome where the loop returns, `none` where it ends.
  unfoldable pub run_stages : List (Task W) → Act (Session W) (Option Outcome)
  unfolding stage_step
  run_stages [] = pure none
  run_stages (t ∷ stages) = stage_step t (run_stages stages)
