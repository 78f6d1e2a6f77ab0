-- ===== src/Stages/Cycles.antt =====
-- The loop over the stages, taken up again by one cycle after another as long as a stage asks for it.
use nvmesh_k8s_operator.Prelude.{
  ℕ, zero, suc, ◌≤◌, ◌<◌, if◌then◌else◌, Option, none, some, List, All,
}
use nvmesh_k8s_operator.Kube.{Act, Ran, returned, panicked, Outcome, ◌>>=◌, pure}
use nvmesh_k8s_operator.Operator.{Session}
use nvmesh_k8s_operator.Stages.{Task, run_stages}

module _ {W : Type 0} where
  abbrev or_again :
      Act (Session W) (Option Outcome) → Option Outcome → Act (Session W) (Option Outcome)
  or_again next none = pure none
  or_again next (some _) = next

  -- The loop, and again after it returned, at most so many times.
  unfoldable pub run_again : ℕ → List (Task W) → Act (Session W) (Option Outcome)
  run_again zero stages = run_stages stages
  run_again (suc more) stages = run_stages stages >>= or_again (run_again more stages)

  module _ (left : W → ℕ) where
    -- A run of a stage that returns without an error, and that leaves less to wait for where it asks to be
    -- run again; otherwise at least not more.
    abbrev pub Advances : W → Ran Outcome × Session W → Type 0
    Advances w (panicked, s) = ⊥
    Advances w (returned (result, some _), s) = ⊥
    Advances w (returned (result, none), s) =
        if result.requeue then left s.world < left w else left s.world ≤ left w

    abbrev pub AllAdvance : List (Task W) → Type 0
    AllAdvance stages = All (λ (t : Task W). (s : Session W) → Advances s.world (t.run s)) stages

    -- How a loop over such stages ends.
    abbrev Ends : W → Ran (Option Outcome) × Session W → Type 0
    Ends w (panicked, s) = ⊥
    Ends w (returned none, s) = left s.world ≤ left w
    Ends w (returned (some _), s) = left s.world < left w
