-- ===== src/Uninstall/Order.antt =====
-- The uninstall runs its stages in order, resumes where it was interrupted, and ends with every stage
-- finished.
use nvmesh_k8s_operator.Prelude.{
  String, true, false, Option, none, some, List, [], ◌∷◌, ◌≡◌, refl, sym, ap, subst, ◌∙◌, ◌⊎◌, inl,
  inr, arith, Bool-cases, All,
}
use nvmesh_k8s_operator.Api.{NvMesh}
use nvmesh_k8s_operator.Kube.{
  Ran, returned, panicked, and_then, CtrlResult, Outcome, do_not_requeue,
}
use nvmesh_k8s_operator.Tasks.{set_action_complete, set_task_status, action_complete, task_finished}
use nvmesh_k8s_operator.Stages.{uninstall_action, run_stages}
use nvmesh_k8s_operator.Stages.Order.{
  stage_status, InOrder, InOrder-same, SameStages, SameStages-set, AllKeep, AreDistinct,
  stage_names,
}
use nvmesh_k8s_operator.Stages.Progress.{run_stages-InOrder}
use nvmesh_k8s_operator.Stages.Resume.{run_stages-AreFinished, run_stages-requeues}
use nvmesh_k8s_operator.Operator.{Operator, Session}
use nvmesh_k8s_operator.Uninstall.Cluster.{
  uninstall_stages, uninstall_done, uninstall_ended, run_uninstall, uninstall_cluster,
  disable_components,
}

abbrev pub uninstall_names : List String
uninstall_names =
    "removeAllWorkloads" ∷ "waitForWorkloadsToFinish" ∷ "clearDB" ∷ "waitForClearDBToFinish"
    ∷ "removeMongo" ∷ "uninstallClusterNodes" ∷ "deletePVCs" ∷ "deleteClusterServiceAccount" ∷ []

module _ {W : Type 0} (op : Operator W) where
  names_of : stage_names (uninstall_stages op) ≡ uninstall_names
  unfolding uninstall_stages
  names_of = refl

  stages-AllKeep : AllKeep (uninstall_stages op)
  unfolding uninstall_stages
  stages-AllKeep = ground arith

  names-AreDistinct : AreDistinct uninstall_names
  names-AreDistinct = ground arith

  distinct : AreDistinct (stage_names (uninstall_stages op))
  distinct = subst AreDistinct (sym names_of) names-AreDistinct

-- The statuses of the eight stages are in order: the finished stages come first, then at most one that
-- was started, and those after it have no status.
unfoldable pub IsOrdered : NvMesh → Type 0
IsOrdered cr = InOrder cr uninstall_names

-- Every stage is finished.
unfoldable pub IsUninstalled : NvMesh → Type 0
IsUninstalled cr = All (λ name. stage_status cr name ≡ task_finished) uninstall_names

abbrev pub AreDisabled : NvMesh → Type 0
AreDisabled cr =
    (cr.spec.core.disabled ≡ true)
    × (cr.spec.management.disabled ≡ true)
    × (cr.spec.csi.disabled ≡ true)

-- The resource after `setActionComplete` and the three components' switches.
abbrev completed : NvMesh → NvMesh
completed cr =
    disable_components (set_task_status uninstall_action action_complete task_finished cr)

completed-SameStages : (cr : NvMesh) → SameStages cr (completed cr) uninstall_names
unfolding disable_components
completed-SameStages cr =
    SameStages-set cr action_complete task_finished uninstall_names (ground arith)

completed-IsOrdered : (cr : NvMesh) → IsOrdered cr → IsOrdered (completed cr)
unfolding IsOrdered
completed-IsOrdered cr o =
    InOrder-same cr (completed cr) uninstall_names (completed-SameStages cr) o

All-same :
    (a b : NvMesh) (names : List String)
    → SameStages a b names
    → All (λ name. stage_status a name ≡ task_finished) names
    → All (λ name. stage_status b name ≡ task_finished) names
All-same a b [] s f = tt
All-same a b (n ∷ names) (e, s) (h, f) = (sym e ∙ h, All-same a b names s f)

completed-IsUninstalled : (cr : NvMesh) → IsUninstalled cr → IsUninstalled (completed cr)
unfolding IsUninstalled
completed-IsUninstalled cr f =
    All-same cr (completed cr) uninstall_names (completed-SameStages cr) f

module _ {W : Type 0} (op : Operator W) where
  stages-IsOrdered :
      (s : Session W) → IsOrdered s.cr → IsOrdered (run_stages (uninstall_stages op) s).1.cr
  unfolding IsOrdered
  stages-IsOrdered s o = subst (InOrder (run_stages (uninstall_stages op) s).1.cr) (names_of op) (
      run_stages-InOrder (uninstall_stages op) (distinct op) (stages-AllKeep op) s
        (subst (InOrder s.cr) (sym (names_of op)) o))

  ended-IsOrdered :
      (r : Ran (Option Outcome)) (s : Session W)
      → IsOrdered s.cr
      → IsOrdered (and_then r (uninstall_ended op) s).1.cr
  unfolding uninstall_ended uninstall_done set_action_complete
  ended-IsOrdered (returned none) s o = completed-IsOrdered s.cr o
  ended-IsOrdered (returned (some outcome)) s o = o
  ended-IsOrdered panicked s o = o

  run_uninstall-IsOrdered : (s : Session W) → IsOrdered s.cr → IsOrdered (run_uninstall op s).1.cr
  unfolding run_uninstall
  run_uninstall-IsOrdered s o =
      let after = run_stages (uninstall_stages op) s in
      ended-IsOrdered after.0 after.1 (stages-IsOrdered s o)

  pub skip_cases :
      (s : Session W)
      → ((s.cr.spec.operator.skip_uninstall ≡ true)
          × (uninstall_cluster op s ≡ (returned (do_not_requeue, none), s)))
        ⊎ ((s.cr.spec.operator.skip_uninstall ≡ false)
            × (uninstall_cluster op s ≡ run_uninstall op s))
  unfolding uninstall_cluster
  skip_cases s = elim (Bool-cases s.cr.spec.operator.skip_uninstall) [
    | inl q ↦ inl (q, rw q refl)
    | inr q ↦ inr (q, rw q refl)
  ]

  -- Every run of `uninstallCluster` on a resource whose stages are in order leaves them in order: the
  -- finished stages come first, then at most one that was started, and those after it have no status.
  -- This is so however the run ends, by a requeue, an error or a panic.
  pub uninstall_cluster-IsOrdered :
      (s : Session W) → IsOrdered s.cr → IsOrdered (uninstall_cluster op s).1.cr
  uninstall_cluster-IsOrdered s o = elim (skip_cases s) [
    | inl (q, same) ↦ subst (λ p. IsOrdered p.1.cr) (sym same) o
    | inr (q, same) ↦ subst (λ p. IsOrdered p.1.cr) (sym same) (run_uninstall-IsOrdered s o)
  ]

  completed-AreDisabled : (cr : NvMesh) → AreDisabled (completed cr)
  unfolding disable_components
  completed-AreDisabled cr = (refl, refl, refl)

  abbrev embed : Ran Outcome → Ran (Option Outcome)
  embed (returned outcome) = returned (some outcome)
  embed panicked = panicked

  -- What the end of the loop says of the end of the uninstall.
  ended-done :
      (r : Ran (Option Outcome)) (s : Session W)
      → ((result : CtrlResult) → r ≡ returned (some (result, none)) → result.requeue ≡ true)
      → (r ≡ returned none → IsUninstalled s.cr)
      → (result : CtrlResult) → (and_then r (uninstall_ended op) s).0 ≡ returned (result, none)
      → result.requeue ≡ false
      → IsUninstalled (and_then r (uninstall_ended op) s).1.cr
        × AreDisabled (and_then r (uninstall_ended op) s).1.cr
  unfolding uninstall_ended uninstall_done set_action_complete
  ended-done (returned none) s requeues finished result h q =
      (completed-IsUninstalled s.cr (finished refl), completed-AreDisabled s.cr)
  ended-done (returned (some (r, e))) s requeues finished result h q =
      ground (arith, requeues result (ap embed h), q)
  ended-done panicked s requeues finished result h q = cc

  stages-IsUninstalled :
      (s : Session W)
      → (run_stages (uninstall_stages op) s).0 ≡ returned none
      → IsUninstalled (run_stages (uninstall_stages op) s).1.cr
  unfolding IsUninstalled
  stages-IsUninstalled s h =
      subst
        (All (λ name. stage_status (run_stages (uninstall_stages op) s).1.cr name ≡ task_finished))
        (names_of op)
        (run_stages-AreFinished (uninstall_stages op) (distinct op) (stages-AllKeep op) s h)

  run_uninstall-done :
      (s : Session W) (result : CtrlResult)
      → (run_uninstall op s).0 ≡ returned (result, none)
      → result.requeue ≡ false
      → IsUninstalled (run_uninstall op s).1.cr × AreDisabled (run_uninstall op s).1.cr
  unfolding run_uninstall
  run_uninstall-done s result h q =
      let after = run_stages (uninstall_stages op) s in
      ended-done after.0 after.1 (run_stages-requeues (uninstall_stages op) s)
        (stages-IsUninstalled s) result h q

  -- Where `uninstallCluster` is not skipped and ends without a requeue and without an error, every one of
  -- the eight stages is finished in the resource, and its three components are disabled.
  pub uninstall_cluster-IsUninstalled :
      (s : Session W) (result : CtrlResult)
      → s.cr.spec.operator.skip_uninstall ≡ false
      → (uninstall_cluster op s).0 ≡ returned (result, none)
      → result.requeue ≡ false
      → IsUninstalled (uninstall_cluster op s).1.cr × AreDisabled (uninstall_cluster op s).1.cr
  uninstall_cluster-IsUninstalled s result skip h q = elim (skip_cases s) [
    | inl (p, same) ↦ ground (arith, skip, p)
    | inr (p, same) ↦
        subst (λ p. IsUninstalled p.1.cr × AreDisabled p.1.cr) (sym same)
          (run_uninstall-done s result (sym (ap (λ p. p.0) same) ∙ h) q)
  ]
