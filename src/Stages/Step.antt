-- ===== src/Stages/Step.antt =====
-- One stage of the loop: what it does to the statuses of the other stages.
use nvmesh_k8s_operator.Prelude.{
  String, true, false, Option, none, some, ◌==◌, if◌then◌else◌, ◌≡◌, ◌⊎◌, inl, inr, refl, ap, ◌∙◌,
  arith, Bool-cases,
}
use nvmesh_k8s_operator.Kube.{Act, Ran, returned, panicked, and_then, Outcome}
use nvmesh_k8s_operator.Operator.{Session}
use nvmesh_k8s_operator.Tasks.{
  task_finished, task_started, task_is_finished, set_task_started, set_task_finished,
  set_task_status, is_task_finished,
}
use nvmesh_k8s_operator.Tasks.Laws.{
  status_of-set, status_of-is_task_finished, is_task_finished-value,
}
use nvmesh_k8s_operator.Stages.{Task, uninstall_action, stage_end, stage_run, stage_step}
use nvmesh_k8s_operator.Stages.Order.{stage_status, KeepsStatuses}

abbrev pub write : {W : Type 0} → Task W → String → Session W → Session W
write t value s = record s { cr = set_task_status uninstall_action t.name value s.cr }

-- The session after the stage's status was read.
abbrev pub read : {W : Type 0} → Task W → Session W → Session W
read t s = record s { cr = (is_task_finished s.cr uninstall_action t.name).1 }

pub read_status :
    {W : Type 0} (t : Task W) (s : Session W) (name : String)
    → stage_status (read t s).cr name ≡ stage_status s.cr name
read_status t s name = status_of-is_task_finished s.cr uninstall_action t.name "uninstall" name

module _ {W : Type 0} (t : Task W) (rest : Act (Session W) (Option Outcome)) where
  -- A stage's end returns at once and changes nothing, or marks the stage and goes on.
  pub stage_end_cases :
      (outcome : Outcome) (s : Session W)
      → ((stage_end t.name rest outcome s).1 ≡ s)
        ⊎ (stage_end t.name rest outcome s ≡ rest (write t task_finished s))
  unfolding stage_end set_task_finished
  stage_end_cases (result, none) s = elim (Bool-cases result.requeue) [
    | inl q ↦ inl (rw q refl)
    | inr q ↦ inr (rw q refl)
  ]
  stage_end_cases (result, some x) s = elim (Bool-cases result.requeue) [
    | inl q ↦ inl (rw q refl)
    | inr q ↦ inl (rw q refl)
  ]

  stage_step-eq :
      (s : Session W)
      → stage_step t rest s ≡ (
          if stage_status s.cr t.name == task_finished
          then rest (read t s)
          else stage_run t rest (read t s))
  unfolding stage_step task_is_finished
  stage_step-eq s = ground (arith, is_task_finished-value s.cr uninstall_action t.name)

  pub passed :
      (s : Session W)
      → (stage_status s.cr t.name == task_finished) ≡ true
      → stage_step t rest s ≡ rest (read t s)
  passed s q =
      stage_step-eq s ∙ ap (λ b. if b then rest (read t s) else stage_run t rest (read t s)) q

  pub entered :
      (s : Session W)
      → (stage_status s.cr t.name == task_finished) ≡ false
      → stage_step t rest s ≡ stage_run t rest (read t s)
  entered s q =
      stage_step-eq s ∙ ap (λ b. if b then rest (read t s) else stage_run t rest (read t s)) q

module _ {W : Type 0} (t : Task W) (rest : Act (Session W) (Option Outcome))
    (frame : KeepsStatuses t) where
  -- The status of a name that is not this stage's is left to the rest.
  module _ (other : String) (apart : (t.name == other) ≡ false)
      (rest_other : (s : Session W)
        → stage_status (rest s).1.cr other ≡ stage_status s.cr other) where
    written :
        (value : String) (s : Session W)
        → stage_status (write t value s).cr other ≡ stage_status s.cr other
    written value s =
        ground (arith, status_of-set s.cr uninstall_action t.name value "uninstall" other)

    stage_end-other :
        (outcome : Outcome) (s : Session W)
        → stage_status (stage_end t.name rest outcome s).1.cr other ≡ stage_status s.cr other
    stage_end-other outcome s = elim (stage_end_cases t rest outcome s) [
      | inl same ↦ ap (λ x. stage_status x.cr other) same
      | inr on ↦
          ap (λ p. stage_status p.1.cr other) on
          ∙ rest_other (write t task_finished s)
          ∙ written task_finished s
    ]

    ran-other :
        (r : Ran Outcome) (s : Session W)
        → stage_status (and_then r (stage_end t.name rest) s).1.cr other ≡ stage_status s.cr other
    ran-other (returned outcome) s = stage_end-other outcome s
    ran-other panicked s = refl

    stage_run-other :
        (s : Session W) → stage_status (stage_run t rest s).1.cr other ≡ stage_status s.cr other
    unfolding stage_run set_task_started
    stage_run-other s =
        let s1 = write t task_started s in
        ran-other (t.run s1).0 (t.run s1).1 ∙ frame s1 other ∙ written task_started s

    read-other : (s : Session W) → stage_status (read t s).cr other ≡ stage_status s.cr other
    read-other s = status_of-is_task_finished s.cr uninstall_action t.name "uninstall" other

    pub stage_step-other :
        (s : Session W) → stage_status (stage_step t rest s).1.cr other ≡ stage_status s.cr other
    stage_step-other s = elim (Bool-cases (stage_status s.cr t.name == task_finished)) [
      | inl q ↦
          ap (λ p. stage_status p.1.cr other) (passed t rest s q)
          ∙ rest_other (read t s)
          ∙ read-other s
      | inr q ↦
          ap (λ p. stage_status p.1.cr other) (entered t rest s q)
          ∙ stage_run-other (read t s)
          ∙ read-other s
    ]
