-- ===== src/Reconcile/Components.antt =====
-- The result that `reconcileAllcomponents` merges from those of the components.
use nvmesh_k8s_operator.Prelude.{Option, List, [], ◌∷◌, ◌≡◌, refl, arith}
use nvmesh_k8s_operator.Api.{NvMesh}
use nvmesh_k8s_operator.Kube.{
  Act, Ran, returned, panicked, and_then, Err, CtrlResult, Outcome, do_not_requeue,
}
use nvmesh_k8s_operator.Operator.{Operator}
use nvmesh_k8s_operator.Reconcile.{
  merge_result, keep_error, component_reconciled, reconcile_components, merged, reconcile_core,
  reconcile_csi, reconcile_all_components,
}
use nvmesh_k8s_operator.Resources.{collect_error, first_error}
use nvmesh_k8s_operator.Mgmt.{reconcile_management}

merge_result-after :
    (minimal result : CtrlResult)
    → minimal.requeue_after ≡ 0
    → (merge_result minimal result).requeue_after ≡ 0
unfolding merge_result
merge_result-after minimal result h = ground arith

module _ {W : Type 0} (op : Operator W) (cr : NvMesh) where
  -- However a run ends, the delay of its result is 0.
  abbrev HasNoDelay : Ran (CtrlResult × List Err) → Type 0
  HasNoDelay (returned (final, errors)) = final.requeue_after ≡ 0
  HasNoDelay panicked = Unit

  kept-HasNoDelay :
      (e : Option Err) (r : Ran (CtrlResult × List Err)) (w : W)
      → HasNoDelay r
      → HasNoDelay (and_then r (keep_error op e) w).0
  unfolding collect_error
  kept-HasNoDelay e (returned (final, errors)) w h = h
  kept-HasNoDelay e panicked w h = tt

  module _ (rest : CtrlResult → Act W (CtrlResult × List Err))
      (rest_none : (minimal : CtrlResult) (w : W)
        → minimal.requeue_after ≡ 0
        → HasNoDelay (rest minimal w).0)
      (minimal : CtrlResult) (none_before : minimal.requeue_after ≡ 0) where
    reconciled-HasNoDelay :
        (r : Ran Outcome) (w : W)
        → HasNoDelay (and_then r (component_reconciled op rest minimal) w).0
    unfolding component_reconciled
    reconciled-HasNoDelay (returned (result, e)) w =
        let out = rest (merge_result minimal result) w in
        kept-HasNoDelay e out.0 out.1 (
          rest_none (merge_result minimal result) w (merge_result-after minimal result none_before))
    reconciled-HasNoDelay panicked w = tt

  components-HasNoDelay :
      (components : List (NvMesh → Act W Outcome)) (minimal : CtrlResult) (w : W)
      → minimal.requeue_after ≡ 0
      → HasNoDelay (reconcile_components op cr components minimal w).0
  unfolding reconcile_components
  components-HasNoDelay [] minimal w h = h
  components-HasNoDelay (component ∷ components) minimal w h =
      reconciled-HasNoDelay (reconcile_components op cr components)
        (components-HasNoDelay components) minimal h (component cr w).0 (component cr w).1

  merged-after :
      (r : Ran (CtrlResult × List Err)) (w : W)
      → HasNoDelay r
      → (result : CtrlResult) (e : Option Err) → (and_then r (merged op) w).0 ≡ returned (result, e)
      → result.requeue_after ≡ 0
  unfolding first_error
  merged-after (returned (final, errors)) w h result e eq = ground (arith, h, eq)
  merged-after panicked w h result e eq = cc

  -- Whatever delays the components ask for, the delay of the merged result is 0: the smallest one is
  -- sought from 0 on.
  pub reconcile_all_components-after :
      (w : W) (result : CtrlResult) (e : Option Err)
      → (reconcile_all_components op cr w).0 ≡ returned (result, e)
      → result.requeue_after ≡ 0
  unfolding reconcile_all_components
  reconcile_all_components-after w result e h =
      let components = reconcile_management op ∷ reconcile_core op ∷ reconcile_csi op ∷ [] in
      let out = reconcile_components op cr components do_not_requeue w in
      merged-after out.0 out.1 (components-HasNoDelay components do_not_requeue w refl) result e h
