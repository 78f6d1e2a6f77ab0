-- ===== src/Unstructured/Owners.antt =====
-- The owner references of unstructured objects, in pkg/controllers/ctrl_utils.go.
pub mod Laws
use nvmesh_k8s_operator.Prelude.{
  ℕ, suc, ◌+◌, String, Bool, true, false, Option, none, some, List, [], ◌∷◌, ◌++◌, set, ◌==◌, ◌&&◌,
  if◌then◌else◌,
}
use nvmesh_k8s_operator.Api.{NvMesh}
use nvmesh_k8s_operator.Kube.{Err, Result, ok, err}
use nvmesh_k8s_operator.Unstructured.Types.{OwnerReference, Unstructured, GroupVersionKind, Dynamic}

-- The comparison of two parsed groups: an API version that does not parse is the same as none.
unfoldable pub same_groups : Result String → Result String → Bool
same_groups (err _) b = false
same_groups (ok a) (err _) = false
same_groups (ok a) (ok b) = a == b

module _ {W : Type 0} (dynamic : Dynamic W) where
  unfoldable pub refer_same_object : (a b : OwnerReference) → Bool
  unfolding same_groups
  refer_same_object a b =
      same_groups (dynamic.parse_group a.api_version) (dynamic.parse_group b.api_version)
      && a.kind == b.kind
      && a.name == b.name

  -- The loop of `indexOwnerRef`, from an index; `none` for -1
  unfoldable pub index_owner_ref_from : ℕ → List OwnerReference → OwnerReference → Option ℕ
  unfolding refer_same_object
  index_owner_ref_from index [] ref = none
  index_owner_ref_from index (r ∷ owner_references) ref =
      let rest = index_owner_ref_from (index + 1) owner_references ref in
      if refer_same_object r ref then some index else rest

  unfoldable pub index_owner_ref : List OwnerReference → OwnerReference → Option ℕ
  unfolding index_owner_ref_from
  index_owner_ref owner_references ref = index_owner_ref_from 0 owner_references ref

  -- `owners[idx] = ref`, or `append(owners, ref)`
  unfoldable pub put_owner : List OwnerReference → OwnerReference → Option ℕ → List OwnerReference
  put_owner owners ref none = owners ++ ref ∷ []
  put_owner owners ref (some idx) = set owners idx ref

  unfoldable pub add_owner_reference : OwnerReference → Unstructured → Unstructured
  unfolding index_owner_ref put_owner
  add_owner_reference ref object = record object {
    owner_references =
        put_owner object.owner_references ref (index_owner_ref object.owner_references ref);
  }

  -- setControllerReferenceOnUnstructured: group and kind are those that the caller gives, which are
  -- the object's.
  unfoldable pub set_controller_reference_on_unstructured :
      (owner : NvMesh) → Unstructured → GroupVersionKind → Unstructured
  unfolding add_owner_reference
  set_controller_reference_on_unstructured owner object gvk =
      add_owner_reference
        (record {
          api_version = dynamic.group_version gvk.group gvk.version;
          kind = gvk.kind;
          name = owner.meta.name;
          uid = owner.meta.uid;
          block_owner_deletion = some true;
          controller = some true;
        })
        object
