-- ===== src/Components/Settled.antt =====
-- The three components come to rest: they want no update of what they have made.
use nvmesh_k8s_operator.Prelude.{Bool, ◌≡◌, refl, Bool-cases, inl, inr, ◌==◌, subst, eq_refl}
use nvmesh_k8s_operator.Prelude.Dict.{get_text}
use nvmesh_k8s_operator.Api.{NvMesh}
use nvmesh_k8s_operator.Kube.{
  Ran, returned, panicked, Result, ok, Obj, Body, config_map, stateful_set, service,
}
use nvmesh_k8s_operator.Operator.{Operator}
use nvmesh_k8s_operator.Objects.Idle.{WantsNoUpdate, SaysNo, SaysNoFirst, IsSettled, with_body-body}
use nvmesh_k8s_operator.Objects.Parts.{map_ran}
use nvmesh_k8s_operator.Core.Component.{core_component, should_update_core_body}
use nvmesh_k8s_operator.Core.Settled.{HasDistinctKeys, init_core_body-Settles}
use nvmesh_k8s_operator.Csi.{csi_component, should_update_csi_body}
use nvmesh_k8s_operator.Csi.Settled.{init_csi_body-Settles}
use nvmesh_k8s_operator.Mgmt.Objects.{
  mgmt_component, should_update_mgmt_body, should_update_mgmt_object, compare_mgmt_config,
  should_update_config_map,
}
use nvmesh_k8s_operator.Mgmt.Settled.{init_mgmt_body-Settles}

abbrev Judged : (Body → Type 0) → Ran (Result Body) → Type 0
Judged Says (returned (ok b)) = Says b
Judged Says _ = Unit

-- What is said of every body that was made is said of the object's.
judged_body :
    (Says : Body → Type 0) (r : Ran (Result Body)) (b : Body)
    → r ≡ returned (ok b)
    → Judged Says r
    → Says b
judged_body Says r b e h = subst (Judged Says) e h

answered :
    {W A : Type 0} (f : A → Obj) (w : W) (r : Ran (Bool × A))
    → SaysNoFirst r
    → WantsNoUpdate w (map_ran (λ p. (p.0, f p.1)) r, w)
answered f w panicked h = h
answered f w (returned (b, a)) h = (h, refl)

answered_plainly :
    {W : Type 0} (o : Obj) (w : W) (r : Ran Bool)
    → SaysNo r
    → WantsNoUpdate w (map_ran (λ b. (b, o)) r, w)
answered_plainly o w panicked h = h
answered_plainly o w (returned b) h = (h, refl)

core-IsSettled : {W : Type 0} → IsSettled HasDistinctKeys (core_component {W = W})
unfolding core_component
core-IsSettled = record {
  settled = λ cr o e expected found w usual made same_expected same_found same_name.
      rw (same_expected, same_found)
        (answered (λ b. record expected { body = b }) w _
          (judged_body (λ b. SaysNoFirst (should_update_core_body cr found.name b b)) _ e.body
            (with_body-body o e _ made) (init_core_body-Settles cr found.name o.body usual)));
}

csi-IsSettled : {W : Type 0} → IsSettled HasDistinctKeys (csi_component {W = W})
unfolding csi_component
csi-IsSettled = record {
  settled = λ cr o e expected found w usual made same_expected same_found same_name.
      rw (same_expected, same_found, same_name)
        (answered_plainly (record expected { body = e.body }) w _
          (judged_body (λ b. SaysNo (should_update_csi_body o.name b b)) _ e.body
            (with_body-body o e _ made) (init_csi_body-Settles cr o.name o.body)));
}

module _ {W : Type 0} (op : Operator W) where
  mgmt_object-settled :
      (cr : NvMesh) (expected found : Obj) (b : Body) (w : W)
      → expected.body ≡ b
      → SaysNoFirst (should_update_mgmt_body found.name b b)
      → WantsNoUpdate w (should_update_mgmt_object op cr expected found b w)
  unfolding should_update_mgmt_object compare_mgmt_config should_update_config_map
      should_update_mgmt_body
  mgmt_object-settled cr expected found (config_map d) w same h =
      elim (Bool-cases (found.name == "nvmesh-mgmt-config")) [
        | inl e ↦ rw (e, same) (rw (eq_refl (get_text d "config")) (refl, refl))
        | inr e ↦ rw e (refl, refl)
      ]
  mgmt_object-settled cr expected found (stateful_set ss) w same h =
      rw same (answered (λ b. record expected { body = b }) w _ h)
  mgmt_object-settled cr expected found (service svc) w same h =
      rw same (answered (λ b. record expected { body = b }) w _ h)
  mgmt_object-settled cr expected found b w same h = (refl, refl)

  mgmt-IsSettled : IsSettled HasDistinctKeys (mgmt_component op)
  unfolding mgmt_component
  mgmt-IsSettled = record {
    settled = λ cr o e expected found w usual made same_expected same_found same_name.
        rw same_found (
          mgmt_object-settled cr expected found e.body w same_expected (
            rw same_name (
              judged_body (λ b. SaysNoFirst (should_update_mgmt_body o.name b b)) _ e.body
                (with_body-body o e _ made) (init_mgmt_body-Settles cr o.name o.body))));
  }

  -- No component wants an update of an object whose body is what its own InitObject has made, and it
  -- makes no call then. The keys of a config map are distinct, as those of a Go map.
  pub components-AreSettled :
      IsSettled HasDistinctKeys (mgmt_component op)
      × IsSettled HasDistinctKeys (core_component {W = W})
      × IsSettled HasDistinctKeys (csi_component {W = W})
  components-AreSettled = (mgmt-IsSettled, core-IsSettled, csi-IsSettled)
