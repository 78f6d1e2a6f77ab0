-- ===== src/Unstructured/Reached.antt =====
-- One object of `reconcileUnstructuredObjects` in pkg/controllers/ctrl_utils.go: it is created or
-- deleted by the dynamic client.
use nvmesh_k8s_operator.Prelude.{
  String, Bool, true, false, Option, none, some, ◌≡◌, ◌≢◌, refl, Bool-cases, inl, inr,
}
use nvmesh_k8s_operator.Api.{NvMesh}
use nvmesh_k8s_operator.Kube.{Client, Ran, returned, Err, Result, ok, err, is_not_found, wrap_error}
use nvmesh_k8s_operator.Unstructured.Types.{GroupVersionKind, Unstructured, Mapping, Dynamic}
use nvmesh_k8s_operator.Unstructured.Owners.{
  set_controller_reference_on_unstructured, add_owner_reference,
}
use nvmesh_k8s_operator.Unstructured.Documented.{Documented, Reached}
use nvmesh_k8s_operator.Unstructured.{
  create_unstructured, delete_unstructured, found_unstructured, reconcile_unstructured,
}

wrap_error-none :
    (e : Option Err) (text : String)
    → ◌≡◌ {A = Ran (Option Err)} (returned (wrap_error e text)) (returned none)
    → e ≡ none
wrap_error-none none text h = refl
wrap_error-none (some x) text h = cc

ne_none : (x : Err) → ◌≢◌ {A = Ran (Option Err)} (returned (some x)) (returned none)
ne_none x h = cc

module _ {W : Type 0} (client : Client W) (dynamic : Dynamic W) (doc : Documented client dynamic)
    (cr : NvMesh) where
  module _ (mapping : Mapping) (ns : String) where
    -- What the look-up of an object told.
    abbrev Looked : Bool → W → String → Result Unstructured → Type 0
    Looked true w n (ok o) = doc.exists w mapping ns n ≡ true
    Looked true w n (err e) = Unit
    Looked false w n (ok o) = Unit
    Looked false w n (err e) = is_not_found e ≡ true → doc.live w mapping ns n ≡ false

    get-Looked :
        (create : Bool) (n : String) (w : W) (r : Result Unstructured)
        → (dynamic.get mapping ns n w).0 ≡ r
        → Looked create (dynamic.get mapping ns n w).1 n r
    get-Looked true n w (ok o) h = doc.get_found mapping ns n w o h
    get-Looked true n w (err e) h = tt
    get-Looked false n w (ok o) h = tt
    get-Looked false n w (err e) h = doc.get_missing mapping ns n w e h

    found-Reached :
        (create : Bool) (obj : Unstructured) (gvk : GroupVersionKind) (r : Result Unstructured)
        (w : W)
        → Looked create w obj.name r
        → (found_unstructured client dynamic cr create mapping ns obj gvk r w).0 ≡ returned none
        → Reached doc create
            (found_unstructured client dynamic cr create mapping ns obj gvk r w).1
            mapping
            ns
            obj.name
    unfolding found_unstructured create_unstructured delete_unstructured
        set_controller_reference_on_unstructured add_owner_reference
    found-Reached true obj gvk (ok _) w l h = l
    found-Reached false obj gvk (ok _) w l h =
        doc.delete_deletes mapping ns obj.name w (wrap_error-none _ _ h)
    found-Reached true obj gvk (err e) w l h = elim (Bool-cases (is_not_found e)) [
      | inl q ↦ rw q (
          doc.create_creates mapping ns
            (set_controller_reference_on_unstructured dynamic cr obj gvk) w
            (wrap_error-none _ _ (rw q at h)))
      | inr q ↦ absurd (ne_none _ (rw q at h))
    ]
    found-Reached false obj gvk (err e) w l h = elim (Bool-cases (is_not_found e)) [
      | inl q ↦ rw q (l q)
      | inr q ↦ absurd (ne_none _ (rw q at h))
    ]

    pub reconcile_unstructured-Reached :
        (create : Bool) (obj : Unstructured) (gvk : GroupVersionKind) (w : W)
        → (reconcile_unstructured client dynamic cr create mapping ns obj gvk w).0 ≡ returned none
        → Reached doc create
            (reconcile_unstructured client dynamic cr create mapping ns obj gvk w).1
            mapping
            ns
            obj.name
    unfolding reconcile_unstructured
    reconcile_unstructured-Reached create obj gvk w h =
        found-Reached create obj gvk (dynamic.get mapping ns obj.name w).0
          (dynamic.get mapping ns obj.name w).1 (get-Looked create obj.name w _ refl) h
