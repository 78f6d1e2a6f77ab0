-- ===== src/Actions/Stale.antt =====
-- Which statuses `removeFinishedActionStatuses` keeps.
use nvmesh_k8s_operator.Prelude.{
  String, true, false, none, List, [], ◌∷◌, if◌then◌else◌, ◌≡◌, ◌↔◌, refl, arith, All, ap,
  String-cases, inl, inr,
}
use nvmesh_k8s_operator.Prelude.Dict.{Dict, get}
use nvmesh_k8s_operator.Api.{ClusterAction}
use nvmesh_k8s_operator.Actions.{has_action, drop_stale}

-- The status of an action is kept as it was where the action is still in the resource, and is gone
-- otherwise.
pub get-drop_stale :
    (actions : List ClusterAction) (d : Dict (Dict String)) (name : String)
    → get (drop_stale actions d).0 name ≡ (if has_action actions name then get d name else none)
unfolding drop_stale get
get-drop_stale actions [] name = ground arith
get-drop_stale actions ((k, status) ∷ d) name = elim (String-cases k name) [
  | inl (same, e) ↦ ground (arith, get-drop_stale actions d name, e, ap (has_action actions) same)
  | inr (differ, e) ↦ ground (arith, get-drop_stale actions d name, e)
]

-- It reports that nothing was dropped exactly when every status is that of an action in the resource.
pub drop_stale_iff :
    (actions : List ClusterAction) (d : Dict (Dict String))
    → ((drop_stale actions d).1 ≡ false)
      ↔ All (λ (entry : String × Dict String). has_action actions entry.0 ≡ true) d
unfolding drop_stale
drop_stale_iff actions [] = (λ h. tt, λ h. refl)
drop_stale_iff actions ((k, status) ∷ d) =
    let rest = drop_stale_iff actions d in
    (λ h. (ground arith, rest.0 (ground (arith, h))), λ (h, hs). ground (arith, rest.1 hs, h))
