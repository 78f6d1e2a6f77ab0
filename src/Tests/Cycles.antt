-- ===== src/Tests/Cycles.antt =====
-- Whole cycles in the small world, and a loop of stages taken up again.
use nvmesh_k8s_operator.Prelude.{ℕ, zero, suc, String, none, some, List, [], ◌∷◌, ◌≡◌}
use nvmesh_k8s_operator.Kube.{Outcome, Ran, returned, message, do_not_requeue, requeue_in}
use nvmesh_k8s_operator.Operator.{Session}
use nvmesh_k8s_operator.Reconcile.{reconcile}
use nvmesh_k8s_operator.Reconcile.Errors.{reconcile-ne-error}
use nvmesh_k8s_operator.Stages.{Task}
use nvmesh_k8s_operator.Tests.Reconciler.{test_operator, deleted_cr}

reconcile-ne-error_example : ¬ (
    (reconcile test_operator "default" "cluster" []).0
    ≡ returned (do_not_requeue, some (message "failed")))
reconcile-ne-error_example =
    reconcile-ne-error test_operator "default" "cluster" [] do_not_requeue (message "failed")

-- A stage that waits for a number of pods, one of which ends in each cycle.
abbrev wait_for : ℕ → Ran Outcome × ℕ
wait_for zero = (returned (do_not_requeue, none), zero)
wait_for (suc n) = (returned (requeue_in 5, none), n)

abbrev waiting : (name : String) → Task ℕ
waiting name = record {
  name = name;
  run = λ s. ((wait_for s.world).0, record s { world = (wait_for s.world).1 });
}

abbrev three_pods : Session ℕ
three_pods = record { cr = deleted_cr; world = 3 }

abbrev waiting_stages : List (Task ℕ)
waiting_stages = waiting "first" ∷ waiting "second" ∷ []
