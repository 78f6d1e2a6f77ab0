-- ===== src/Uninstall/Refusal.antt =====
-- The stage deletePVCs asks the label library for a requirement that it may refuse; then the uninstall
-- does not come to its end.
use nvmesh_k8s_operator.Prelude.{
  String, true, false, Option, none, some, List, [], ◌∷◌, ◌==◌, ◌≡◌, ◌≢◌, refl, sym, subst, ◌∙◌,
  ◌⊎◌, inl, inr, arith, eq_iff, eq_refl, Bool-cases,
}
use nvmesh_k8s_operator.Api.{NvMesh}
use nvmesh_k8s_operator.Kube.{
  Client, Act, Ran, returned, panicked, and_then, err, Err, CtrlResult, Outcome,
}
use nvmesh_k8s_operator.Tasks.{
  task_finished, task_started, action_complete, set_task_started, set_action_complete,
}
use nvmesh_k8s_operator.Tasks.Laws.{status_of-set}
use nvmesh_k8s_operator.Stages.{
  Task, uninstall_action, stage_end, stage_run, stage_step, run_stages,
}
use nvmesh_k8s_operator.Stages.Order.{stage_status, KeepsStatuses}
use nvmesh_k8s_operator.Stages.Step.{write, read, read_status, stage_end_cases, passed, entered}
use nvmesh_k8s_operator.Operator.{Operator, Session}
use nvmesh_k8s_operator.Uninstall.{delete_on_uninstall_label_key, delete_pvcs}
use nvmesh_k8s_operator.Uninstall.Cluster.{
  uninstall_stages, uninstall_done, uninstall_ended, run_uninstall, uninstall_cluster,
  disable_components,
}
use nvmesh_k8s_operator.Uninstall.Order.{IsUninstalled, skip_cases, uninstall_cluster-IsUninstalled}

module _ {W : Type 0} (name : String) where
  -- The stage of this name is not finished.
  abbrev pub IsOpen : Session W → Type 0
  IsOpen s = stage_status s.cr name ≢ task_finished

  -- A stage of another name that leaves the statuses alone.
  abbrev IsOther : Task W → Type 0
  IsOther t = ((t.name == name) ≡ false) × KeepsStatuses t

  -- The stage of this name, whose run panics and changes no status.
  abbrev IsStuck : Task W → Type 0
  IsStuck t =
      ((t.name == name) ≡ true) × KeepsStatuses t × ((s : Session W) → (t.run s).0 ≡ panicked)

  IsOpen-same :
      (a b : Session W) → stage_status b.cr name ≡ stage_status a.cr name → IsOpen a → IsOpen b
  IsOpen-same a b same o finished = o (sym same ∙ finished)

  write-other :
      (t : Task W) (value : String) (s : Session W)
      → (t.name == name) ≡ false
      → stage_status (write t value s).cr name ≡ stage_status s.cr name
  write-other t value s apart =
      ground (arith, status_of-set s.cr uninstall_action t.name value "uninstall" name)

  write-own :
      (t : Task W) (value : String) (s : Session W)
      → (t.name == name) ≡ true
      → stage_status (write t value s).cr name ≡ value
  write-own t value s same = ground (
    arith,
    status_of-set s.cr uninstall_action t.name value "uninstall" name,
    eq_refl "uninstall",
  )

  module _ (t : Task W) (rest : Act (Session W) (Option Outcome))
      (rest_open : (s : Session W) → IsOpen s → IsOpen (rest s).1) where
    ended-IsOpen :
        (t.name == name) ≡ false
        → (outcome : Outcome) (s : Session W) → IsOpen s
        → IsOpen (stage_end t.name rest outcome s).1
    ended-IsOpen apart outcome s o = elim (stage_end_cases t rest outcome s) [
      | inl same ↦ subst IsOpen (sym same) o
      | inr on ↦
          subst (λ p. IsOpen p.1) (sym on)
            (rest_open (write t task_finished s)
              (IsOpen-same s (write t task_finished s) (write-other t task_finished s apart) o))
    ]

    ran-IsOpen :
        (t.name == name) ≡ false
        → (r : Ran Outcome) (s : Session W) → IsOpen s
        → IsOpen (and_then r (stage_end t.name rest) s).1
    ran-IsOpen apart (returned outcome) s o = ended-IsOpen apart outcome s o
    ran-IsOpen apart panicked s o = o

    other_run-IsOpen : IsOther t → (s : Session W) → IsOpen s → IsOpen (stage_run t rest s).1
    unfolding stage_run set_task_started
    other_run-IsOpen (apart, frame) s o =
        let s1 = write t task_started s in
        ran-IsOpen apart (t.run s1).0 (t.run s1).1
          (IsOpen-same s (t.run s1).1 (frame s1 name ∙ write-other t task_started s apart) o)

    started-IsOpen : (s : Session W) → stage_status s.cr name ≡ task_started → IsOpen s
    started-IsOpen s started finished =
        ground (arith, sym started ∙ finished, eq_iff task_started task_finished)

    stuck_run-IsOpen : IsStuck t → (s : Session W) → IsOpen (stage_run t rest s).1
    unfolding stage_run set_task_started
    stuck_run-IsOpen (same, frame, panics) s =
        let s1 = write t task_started s in
        subst (λ r. IsOpen (and_then r (stage_end t.name rest) (t.run s1).1).1) (sym (panics s1))
          (started-IsOpen (t.run s1).1 (frame s1 name ∙ write-own t task_started s same))

    step-IsOpen :
        (IsOther t ⊎ IsStuck t) → (s : Session W) → IsOpen s → IsOpen (stage_step t rest s).1
    step-IsOpen kind s o = elim (Bool-cases (stage_status s.cr t.name == task_finished)) [
      | inl q ↦
          subst (λ p. IsOpen p.1) (sym (passed t rest s q))
            (rest_open (read t s) (IsOpen-same s (read t s) (read_status t s name) o))
      | inr q ↦ subst (λ p. IsOpen p.1) (sym (entered t rest s q)) (run kind)
    ]
      where
        run : (IsOther t ⊎ IsStuck t) → IsOpen (stage_run t rest (read t s)).1
        run (inl other) =
            other_run-IsOpen other (read t s) (IsOpen-same s (read t s) (read_status t s name) o)
        run (inr stuck) = stuck_run-IsOpen stuck (read t s)

  abbrev AreStuck : List (Task W) → Type 0
  AreStuck [] = Unit
  AreStuck (t ∷ stages) = (IsOther t ⊎ IsStuck t) × AreStuck stages

  run_stages-IsOpen :
      (stages : List (Task W))
      → AreStuck stages
      → (s : Session W) → IsOpen s
      → IsOpen (run_stages stages s).1
  unfolding run_stages
  run_stages-IsOpen [] k s o = o
  run_stages-IsOpen (t ∷ stages) (kind, k) s o =
      step-IsOpen t (run_stages stages) (run_stages-IsOpen stages k) kind s o

-- The label library refuses the requirement that deletePVCs asks for.
abbrev pub IsRefused : {W : Type 0} → Client W → Type 0
IsRefused client =
    (e : Err) × (client.exists_requirement delete_on_uninstall_label_key ("" ∷ []) ≡ err e)

module _ {W : Type 0} (op : Operator W) (refused : IsRefused op.client) where
  pvcs_panic : (cr : NvMesh) (w : W) → (delete_pvcs op cr w).0 ≡ panicked
  unfolding delete_pvcs
  pvcs_panic cr w = ground (arith, refused.1)

  stages-AreStuck : AreStuck "deletePVCs" (uninstall_stages op)
  unfolding uninstall_stages
  stages-AreStuck = (
    inl (refl, λ s n. refl),
    (
      inl (refl, λ s n. refl),
      (
        inl (refl, λ s n. refl),
        (
          inl (refl, λ s n. refl),
          (
            inl (refl, λ s n. refl),
            (
              inl (refl, λ s n. refl),
              (
                inr (refl, (λ s n. refl), λ s. pvcs_panic s.cr s.world),
                (inl (refl, λ s n. refl), tt),
              ),
            ),
          ),
        ),
      ),
    ),
  )

  ended-IsOpen_pvcs :
      (r : Ran (Option Outcome)) (s : Session W)
      → IsOpen "deletePVCs" s
      → IsOpen "deletePVCs" (and_then r (uninstall_ended op) s).1
  unfolding uninstall_ended uninstall_done set_action_complete disable_components
  ended-IsOpen_pvcs (returned none) s o =
      IsOpen-same "deletePVCs" s (and_then (returned none) (uninstall_ended op) s).1
        (ground (
          arith,
          status_of-set s.cr uninstall_action action_complete task_finished "uninstall"
              "deletePVCs",
        ))
        o
  ended-IsOpen_pvcs (returned (some outcome)) s o = o
  ended-IsOpen_pvcs panicked s o = o

  run-IsOpen : (s : Session W) → IsOpen "deletePVCs" s → IsOpen "deletePVCs" (run_uninstall op s).1
  unfolding run_uninstall
  run-IsOpen s o =
      let after = run_stages (uninstall_stages op) s in
      ended-IsOpen_pvcs after.0 after.1
        (run_stages-IsOpen "deletePVCs" (uninstall_stages op) stages-AreStuck s o)

  pvcs_finished : (cr : NvMesh) → IsUninstalled cr → stage_status cr "deletePVCs" ≡ task_finished
  unfolding IsUninstalled
  pvcs_finished cr (_, (_, (_, (_, (_, (_, (h, _))))))) = h

  -- Where the label library refuses a requirement Exists with a value, and the stage deletePVCs is not
  -- finished, `uninstallCluster` never ends without a requeue and an error unless it is skipped: the stage
  -- panics, and it stays unfinished for every later cycle.
  pub uninstall_cluster-IsOpen :
      (s : Session W)
      → s.cr.spec.operator.skip_uninstall ≡ false
      → IsOpen "deletePVCs" s
      → IsOpen "deletePVCs" (uninstall_cluster op s).1
        × ((result : CtrlResult)
            → (uninstall_cluster op s).0 ≡ returned (result, none)
            → result.requeue ≡ true)
  uninstall_cluster-IsOpen s skip o = elim (skip_cases op s) [
    | inl (p, same) ↦ ground (arith, skip, p)
    | inr (p, same) ↦ (stays_open same, λ result h. goes_on same result h)
  ]
    where
      stays_open :
          uninstall_cluster op s ≡ run_uninstall op s
          → IsOpen "deletePVCs" (uninstall_cluster op s).1
      stays_open same = subst (λ p. IsOpen "deletePVCs" p.1) (sym same) (run-IsOpen s o)

      goes_on :
          uninstall_cluster op s ≡ run_uninstall op s
          → (result : CtrlResult) → (uninstall_cluster op s).0 ≡ returned (result, none)
          → result.requeue ≡ true
      goes_on same result h = elim (Bool-cases result.requeue) [
        | inl q ↦ q
        | inr q ↦ absurd (
            stays_open same (
              pvcs_finished (uninstall_cluster op s).1.cr
                (uninstall_cluster-IsUninstalled op s result skip h q).0))
      ]
