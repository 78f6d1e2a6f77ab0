-- ===== src/Unstructured/Deploy.antt =====
-- The loop of `reconcileUnstructuredObjects` in pkg/controllers/ctrl_utils.go over the files of a
-- directory.
use nvmesh_k8s_operator.Prelude.{String, Bool, Option, none, some, List, [], ◌≡◌, All}
use nvmesh_k8s_operator.Api.{NvMesh}
use nvmesh_k8s_operator.Kube.{Client, Act, Ran, returned, Err, Result, ok, err, pure}
use nvmesh_k8s_operator.Unstructured.Types.{Dynamic}
use nvmesh_k8s_operator.Unstructured.Documented.{Documented}
use nvmesh_k8s_operator.Unstructured.{Watching, Updater, append_error, reconcile_unstructured_files}
use nvmesh_k8s_operator.Unstructured.Files.{FileReached}

module _ {W : Type 0} (client : Client W) (dynamic : Dynamic W) (doc : Documented client dynamic)
    (cr : NvMesh) (create : Bool) where
  module _ (process_func : Updater) where
    abbrev Done : W → String → Type 0
    Done w f = FileReached client dynamic doc cr create process_func w f

    abbrev after_file : List Err → List String → Result (Option Err) → Act (Watching W) (Option Err)
    after_file errors files r = elim r [
      | err x ↦ pure (some x)
      | ok e ↦
          reconcile_unstructured_files client dynamic cr create process_func
            (append_error client dynamic cr create errors e) files
    ]

    -- Where the loop ends without an error, there was none before it, and every file has been reached.
    abbrev IsDeployed : List Err → List String → Ran (Option Err) × Watching W → Type 0
    IsDeployed errors files (r, s) = r ≡ returned none → (errors ≡ []) × All (Done s.world) files
