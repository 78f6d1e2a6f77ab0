-- ===== src/Status/Update.antt =====
-- What `UpdateStatus` has done where it ends without an error.
use nvmesh_k8s_operator.Prelude.{String, true, none, ◌≡◌, ◌⊎◌}
use nvmesh_k8s_operator.Api.{NvMesh, Status}
use nvmesh_k8s_operator.Kube.{Err, err, unless, is_not_found}
use nvmesh_k8s_operator.Operator.{Operator}

module _ {W : Type 0} (op : Operator W) where
  -- The API server was sent a resource with this status, and accepted it or had no such resource; or it
  -- had none to fetch.
  abbrev pub IsAnswered : Status → Type 0
  IsAnswered status =
      ((cr : NvMesh) × (w : W) × (unless is_not_found
            (op.client.update_nvmesh_status (record cr { status = status }) w).0.0
          ≡ none))
      ⊎ ((namespace : String) × (name : String) × (w : W) × (e : Err) × ((op.client.get_nvmesh
              namespace name w).0
            ≡ err e)
          × (is_not_found e ≡ true))
