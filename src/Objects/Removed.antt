-- ===== src/Objects/Removed.antt =====
-- `makeSureObjectRemoved`: an object that it reports no error about is gone or going.
use nvmesh_k8s_operator.Prelude.{String, false, ◌≡◌, arith}
use nvmesh_k8s_operator.Api.{NvMesh}
use nvmesh_k8s_operator.Kube.{Client, Obj, kind_of}
use nvmesh_k8s_operator.Objects.{object_namespace, get_generic_object, make_sure_object_removed}
use nvmesh_k8s_operator.Objects.Quiet.{Quiet}

module _ {W : Type 0} (client : Client W) (quiet : Quiet client) where
  -- The object's own key is absent or marked for deletion.
  abbrev pub IsDead : W → NvMesh → Obj → Type 0
  IsDead w cr o =
      quiet.live w (kind_of o.body) (object_namespace (kind_of o.body) cr.meta.namespace) o.name
      ≡ false

  -- What was gone before is gone afterwards.
  pub make_sure_object_removed-keeps :
      (cr : NvMesh) (o : Obj) (w : W) (k ns n : String)
      → quiet.live w k ns n ≡ false
      → quiet.live (make_sure_object_removed client cr o w).1 k ns n ≡ false
  unfolding make_sure_object_removed
  make_sure_object_removed-keeps cr o w k ns n h = ground (
    arith,
    quiet.get_keeps_dead (kind_of o.body) (object_namespace (kind_of o.body) cr.meta.namespace)
        o.name w k ns n h,
    quiet.delete_keeps_dead (kind_of o.body) cr.meta.namespace o.name
        (get_generic_object client o cr.meta.namespace w).1 k ns n,
  )
