-- ===== src/Stages/Progress.antt =====
-- The stages are run in their order: a stage has a status only after every stage before it finished,
-- in every state in which a cycle can leave the resource.
use nvmesh_k8s_operator.Prelude.{
  String, false, Option, List, [], ◌∷◌, ◌==◌, ◌≡◌, inl, inr, refl, sym, ap, subst, ◌∙◌, arith,
  eq_iff, All, Bool-cases,
}
use nvmesh_k8s_operator.Kube.{Act, Ran, returned, panicked, and_then, Outcome}
use nvmesh_k8s_operator.Operator.{Session}
use nvmesh_k8s_operator.Tasks.{task_finished, task_started, set_task_started, set_task_status}
use nvmesh_k8s_operator.Tasks.Laws.{status_of-is_task_finished}
use nvmesh_k8s_operator.Stages.{
  Task, uninstall_action, stage_end, stage_run, stage_step, run_stages,
}
use nvmesh_k8s_operator.Stages.Order.{
  stage_status, IsUntouched, InOrder, IsFresh, AreDistinct, KeepsStatuses, AllKeep, stage_names,
  IsUntouched-same, InOrder-same, SameStages-set, SameStages-read, SameStages-run,
  status_of-set_self, InOrder-untouched,
}
use nvmesh_k8s_operator.Stages.Step.{
  write, read, stage_end_cases, passed, entered, stage_step-other,
}

-- One stage, before a rest of the loop that keeps the order of the other stages and this stage's
-- status.
module _ {W : Type 0} (t : Task W) (rest : Act (Session W) (Option Outcome)) (names : List String)
    (fresh : IsFresh t.name names) (frame : KeepsStatuses t)
    (rest_order : (s : Session W) → InOrder s.cr names → InOrder (rest s).1.cr names)
    (rest_head : (s : Session W)
      → stage_status (rest s).1.cr t.name ≡ stage_status s.cr t.name) where
  after_finished :
      (s : Session W)
      → stage_status s.cr t.name ≡ task_finished
      → InOrder s.cr names
      → InOrder (rest s).1.cr (t.name ∷ names)
  after_finished s h o = inl (rest_head s ∙ h, rest_order s o)

  Goal : Session W → Type 0
  Goal s = InOrder s.cr (t.name ∷ names)

  stage_end-InOrder :
      (outcome : Outcome) (s : Session W)
      → IsUntouched s.cr names
      → Goal (stage_end t.name rest outcome s).1
  unfolding Goal
  stage_end-InOrder outcome s u = elim (stage_end_cases t rest outcome s) [
    | inl same ↦ subst Goal (sym same) (inr u)
    | inr on ↦ subst Goal (sym (ap (λ p. p.1) on)) (
        after_finished (write t task_finished s) (status_of-set_self s.cr t.name task_finished) (
          InOrder-untouched (set_task_status uninstall_action t.name task_finished s.cr) names (
            IsUntouched-same s.cr (set_task_status uninstall_action t.name task_finished s.cr) names
              (SameStages-set s.cr t.name task_finished names fresh) u)))
  ]

  ran-InOrder :
      (r : Ran Outcome) (s : Session W)
      → IsUntouched s.cr names
      → Goal (and_then r (stage_end t.name rest) s).1
  unfolding Goal
  ran-InOrder (returned outcome) s u = stage_end-InOrder outcome s u
  ran-InOrder panicked s u = inr u

  stage_run-InOrder : (s : Session W) → IsUntouched s.cr names → Goal (stage_run t rest s).1
  unfolding stage_run set_task_started
  stage_run-InOrder s u =
      let s1 = write t task_started s in
      let u1 =
        IsUntouched-same s.cr s1.cr names (SameStages-set s.cr t.name task_started names fresh) u in
      ran-InOrder (t.run s1).0 (t.run s1).1
        (IsUntouched-same s1.cr (t.run s1).1.cr names (SameStages-run t frame s1 names) u1)

  InOrder-tail : (s : Session W) → Goal s → InOrder s.cr names
  unfolding Goal
  InOrder-tail s (inl (h, o)) = o
  InOrder-tail s (inr u) = InOrder-untouched s.cr names u

  tail-IsUntouched :
      (s : Session W)
      → (stage_status s.cr t.name == task_finished) ≡ false
      → Goal s
      → IsUntouched s.cr names
  unfolding Goal
  tail-IsUntouched s q (inl (h, o)) =
      ground (arith, q, (eq_iff (stage_status s.cr t.name) task_finished).1 h)
  tail-IsUntouched s q (inr u) = u

  read_status : (s : Session W) → stage_status (read t s).cr t.name ≡ stage_status s.cr t.name
  read_status s = status_of-is_task_finished s.cr uninstall_action t.name "uninstall" t.name

  stage_step-InOrder : (s : Session W) → Goal s → Goal (stage_step t rest s).1
  unfolding Goal
  stage_step-InOrder s o = elim (Bool-cases (stage_status s.cr t.name == task_finished)) [
    | inl q ↦
        subst (λ p. Goal p.1) (sym (passed t rest s q))
          (after_finished (read t s)
            (read_status s ∙ (eq_iff (stage_status s.cr t.name) task_finished).0 q)
            (InOrder-same s.cr (read t s).cr names (SameStages-read s.cr t.name names)
              (InOrder-tail s o)))
    | inr q ↦
        subst (λ p. Goal p.1) (sym (entered t rest s q))
          (stage_run-InOrder (read t s) (
            IsUntouched-same s.cr (read t s).cr names (SameStages-read s.cr t.name names)
              (tail-IsUntouched s q o)))
  ]

pub flipped :
    (name : String) (names : List String)
    → IsFresh name names
    → All (λ other. (other == name) ≡ false) names
flipped name [] f = tt
flipped name (n ∷ names) (d, f) =
    (ground (arith, eq_iff name n, eq_iff n name), flipped name names f)

pub run_stages-other :
    {W : Type 0} (stages : List (Task W)) (other : String)
    → All (λ name. (name == other) ≡ false) (stage_names stages)
    → AllKeep stages
    → (s : Session W) → stage_status (run_stages stages s).1.cr other ≡ stage_status s.cr other
unfolding run_stages
run_stages-other [] other f k s = refl
run_stages-other (t ∷ stages) other (a, f) (frame, k) s =
    stage_step-other t (run_stages stages) frame other a (run_stages-other stages other f k) s

pub run_stages-InOrder :
    {W : Type 0} (stages : List (Task W))
    → AreDistinct (stage_names stages)
    → AllKeep stages
    → (s : Session W) → InOrder s.cr (stage_names stages)
    → InOrder (run_stages stages s).1.cr (stage_names stages)
unfolding run_stages Goal
run_stages-InOrder [] d k s o = tt
run_stages-InOrder (t ∷ stages) (fresh, d) (frame, k) s o =
    stage_step-InOrder t (run_stages stages) (stage_names stages) fresh frame
      (run_stages-InOrder stages d k)
      (run_stages-other stages t.name (flipped t.name (stage_names stages) fresh) k) s o
