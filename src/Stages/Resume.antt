-- ===== src/Stages/Resume.antt =====
-- A later cycle resumes the loop where the statuses say, and runs no finished stage again.
use nvmesh_k8s_operator.Prelude.{
  true, Option, none, some, List, [], ◌∷◌, ◌==◌, ◌≡◌, refl, sym, ap, subst, ◌∙◌, arith, eq_iff, All,
  Bool-cases, inl, inr,
}
use nvmesh_k8s_operator.Kube.{Act, Ran, returned, panicked, and_then, CtrlResult, Outcome}
use nvmesh_k8s_operator.Operator.{Session}
use nvmesh_k8s_operator.Tasks.{task_finished, task_started, set_task_finished, set_task_started}
use nvmesh_k8s_operator.Stages.{Task, stage_end, stage_run, stage_step, run_stages}
use nvmesh_k8s_operator.Stages.Order.{
  stage_status, AreDistinct, AllKeep, stage_names, status_of-set_self,
}
use nvmesh_k8s_operator.Stages.Step.{write, read, read_status, passed, entered}
use nvmesh_k8s_operator.Stages.Progress.{run_stages-other, flipped}

-- Every stage of the list is finished.
abbrev pub AreFinished : {W : Type 0} → Session W → List (Task W) → Type 0
AreFinished s stages = All (λ name. stage_status s.cr name ≡ task_finished) (stage_names stages)

AreFinished-read :
    {W : Type 0} (t : Task W) (s : Session W) (stages : List (Task W))
    → AreFinished s stages
    → AreFinished (read t s) stages
AreFinished-read t s [] a = tt
AreFinished-read t s (u ∷ stages) (h, a) =
    (read_status t s u.name ∙ h, AreFinished-read t s stages a)

-- Where every stage is finished, the loop ends without a return and changes nothing outside the
-- resource: no stage is run again.
pub run_stages-finished :
    {W : Type 0} (stages : List (Task W)) (s : Session W)
    → AreFinished s stages
    → ((run_stages stages s).0 ≡ returned none) × ((run_stages stages s).1.world ≡ s.world)
unfolding run_stages
run_stages-finished [] s a = (refl, refl)
run_stages-finished (t ∷ stages) s (h, a) =
    let step = passed t (run_stages stages) s (ap (λ x. x == task_finished) h) in
    let (ends, same) = run_stages-finished stages (read t s) (AreFinished-read t s stages a) in
    (ap (λ p. p.0) step ∙ ends, ap (λ p. p.1.world) step ∙ same)

module _ {W : Type 0} (t : Task W) (rest : Act (Session W) (Option Outcome)) where
  -- A stage's end from which the loop's end is reached has marked the stage and run the rest.
  end_marks :
      (outcome : Outcome) (s : Session W)
      → (stage_end t.name rest outcome s).0 ≡ returned none
      → stage_end t.name rest outcome s ≡ rest (write t task_finished s)
  unfolding stage_end set_task_finished
  end_marks (result, none) s h = elim (Bool-cases result.requeue) [
    | inl q ↦ ground arith
    | inr q ↦ rw q refl
  ]
  end_marks (result, some x) s h = elim (Bool-cases result.requeue) [
    | inl q ↦ ground arith
    | inr q ↦ ground arith
  ]

  ran_marks :
      (r : Ran Outcome) (s : Session W)
      → (and_then r (stage_end t.name rest) s).0 ≡ returned none
      → and_then r (stage_end t.name rest) s ≡ rest (write t task_finished s)
  ran_marks (returned outcome) s h = end_marks outcome s h
  ran_marks panicked s h = cc

  -- Where the loop's end is reached after a stage, the rest was run from a session in which the stage
  -- is finished.
  step_marks :
      (s : Session W)
      → (stage_step t rest s).0 ≡ returned none
      → (s' : Session W) × (stage_step t rest s ≡ rest s')
        × (stage_status s'.cr t.name ≡ task_finished)
  unfolding stage_run set_task_started
  step_marks s h = elim (Bool-cases (stage_status s.cr t.name == task_finished)) [
    | inl q ↦ (
      read t s,
      passed t rest s q,
      read_status t s t.name ∙ (eq_iff (stage_status s.cr t.name) task_finished).0 q,
    )
    | inr q ↦
        let e = entered t rest s q in
        let after = t.run (write t task_started (read t s)) in
        (
          write t task_finished after.1,
          e ∙ ran_marks after.0 after.1 (sym (ap (λ p. p.0) e) ∙ h),
          status_of-set_self after.1.cr t.name task_finished,
        )
  ]

-- Where the loop ends without a return, every stage is finished afterwards.
pub run_stages-AreFinished :
    {W : Type 0} (stages : List (Task W))
    → AreDistinct (stage_names stages)
    → AllKeep stages
    → (s : Session W) → (run_stages stages s).0 ≡ returned none
    → AreFinished (run_stages stages s).1 stages
unfolding run_stages
run_stages-AreFinished [] d k s h = tt
run_stages-AreFinished (t ∷ stages) (fresh, d) (frame, k) s h =
    let (s', same, done) = step_marks t (run_stages stages) s h in
    subst (λ p. AreFinished p.1 (t ∷ stages)) (sym same)
      (
        run_stages-other stages t.name (flipped t.name (stage_names stages) fresh) k s' ∙ done,
        run_stages-AreFinished stages d k s' (sym (ap (λ p. p.0) same) ∙ h),
      )

-- Where the loop returns early without an error, the stage that made it return asked for a requeue.
abbrev IsRequeue : Ran (Option Outcome) → Type 0
IsRequeue r = (result : CtrlResult) → r ≡ returned (some (result, none)) → result.requeue ≡ true

module _ {W : Type 0} (t : Task W) (rest : Act (Session W) (Option Outcome))
    (rest_requeues : (s : Session W) → IsRequeue (rest s).0) where
  end_requeues : (outcome : Outcome) (s : Session W) → IsRequeue (stage_end t.name rest outcome s).0
  unfolding stage_end set_task_finished
  end_requeues (r, none) s result h = elim (Bool-cases r.requeue) [
    | inl q ↦ ground (arith, q)
    | inr q ↦ rest_requeues (write t task_finished s) result (rw q at h)
  ]
  end_requeues (r, some x) s result h = elim (Bool-cases r.requeue) [
    | inl q ↦ ground (arith, q)
    | inr q ↦ ground (arith, q)
  ]

  ran_requeues :
      (r : Ran Outcome) (s : Session W) → IsRequeue (and_then r (stage_end t.name rest) s).0
  ran_requeues (returned outcome) s = end_requeues outcome s
  ran_requeues panicked s = λ result h. cc

  step_requeues : (s : Session W) → IsRequeue (stage_step t rest s).0
  unfolding stage_run set_task_started
  step_requeues s result h = elim (Bool-cases (stage_status s.cr t.name == task_finished)) [
    | inl q ↦ rest_requeues (read t s) result (sym (ap (λ p. p.0) (passed t rest s q)) ∙ h)
    | inr q ↦
        let after = t.run (write t task_started (read t s)) in
        ran_requeues after.0 after.1 result (sym (ap (λ p. p.0) (entered t rest s q)) ∙ h)
  ]

pub run_stages-requeues :
    {W : Type 0} (stages : List (Task W)) (s : Session W) (result : CtrlResult)
    → (run_stages stages s).0 ≡ returned (some (result, none))
    → result.requeue ≡ true
unfolding run_stages
run_stages-requeues [] s result h = ground arith
run_stages-requeues (t ∷ stages) s result h =
    step_requeues t (run_stages stages) (run_stages-requeues stages) s result h
