-- ===== src/Unstructured.antt =====
-- `reconcileUnstructuredObjects` and its parts in pkg/controllers/ctrl_utils.go, with
-- `YamlFileToUnstructured` of pkg/yamlutils/yamlutils.go: the objects of a directory, of any kind, are
-- created or deleted by the dynamic client. Logging is left out, and so is the goroutine that only
-- logs what a watcher sees.
pub mod Types
pub mod Owners
pub mod Documented
pub mod Reached
pub mod Keeping
pub mod Files
pub mod Deploy
use nvmesh_k8s_operator.Prelude.{
  ℕ, String, Bool, true, false, Option, none, some, List, [], ◌∷◌, ◌++◌, concat, if◌then◌else◌,
}
use nvmesh_k8s_operator.Api.{NvMesh}
use nvmesh_k8s_operator.Slices.{string_in_slice}
use nvmesh_k8s_operator.Kube.{
  Client, Act, Ran, returned, pure, panic, call, ◌>>=◌, ◌>>◌, or_return, Err, Result, ok, err,
  wrap_error, is_not_found,
}
use nvmesh_k8s_operator.Yaml.{yaml_file_to_string}
use nvmesh_k8s_operator.Objects.{globally_named_kinds}
use nvmesh_k8s_operator.Resources.{list_files_in_sub_dirs, first_error}
use nvmesh_k8s_operator.Unstructured.Types.{GroupVersionKind, Unstructured, Mapping, Dynamic}
use nvmesh_k8s_operator.Unstructured.Owners.{set_controller_reference_on_unstructured}

-- The global list of watchers, and the world.
pub record Watching (W : Type 0) : Type 0 where
  pub watchers : List ℕ
  pub world : W

-- An action on the world alone.
abbrev in_watching : {W A : Type 0} → List ℕ → Ran A × W → Ran A × Watching W
in_watching ws (r, w) = (r, record { watchers = ws; world = w })

abbrev pub outside : {W A : Type 0} → Act W A → Act (Watching W) A
outside m s = in_watching s.watchers (m s.world)

-- unstructuredUpdater: both arguments are pointers
abbrev pub Updater : Type 0
Updater = NvMesh → Unstructured × GroupVersionKind → Unstructured × GroupVersionKind

unfoldable pub get_namespace_for_object : NvMesh → GroupVersionKind → String
get_namespace_for_object cr gvk =
    if string_in_slice gvk.kind globally_named_kinds then "" else cr.meta.namespace

module _ {W : Type 0} (client : Client W) (dynamic : Dynamic W) where
  -- What follows the reading in `YamlFileToUnstructured`, which panics where that failed.
  unfoldable pub decode_unstructured :
      (filename : String) → Result String → Act W (Result (Unstructured × GroupVersionKind))
  decode_unstructured filename (err _) = panic
  decode_unstructured filename (ok yaml) = elim (dynamic.decode yaml) [
    | ok decoded ↦ pure (ok decoded)
    | err e ↦ pure (
        err (
          Err.wrap e (
            concat (
              "Error while trying to read from YAML file. filename: " ∷ filename ∷ ", content: "
              ∷ yaml ∷ []))))
  ]

  unfoldable pub yaml_file_to_unstructured :
      String → Act W (Result (Unstructured × GroupVersionKind))
  unfolding yaml_file_to_string decode_unstructured
  yaml_file_to_unstructured filename = do
    r ← yaml_file_to_string client filename
    decode_unstructured filename r

  -- findGVR, and getDynamicClientResource, which logs its error
  unfoldable pub find_gvr : GroupVersionKind → Act W (Result Mapping)
  find_gvr gvk = do
    e ← call dynamic.new_discovery_client
    elim e [ some x ↦ pure (err x) | none ↦ call (dynamic.rest_mapping gvk) ]

  -- `watchers = append(watchers, watcher)`
  unfoldable pub keep_watcher : Result ℕ → Act (Watching W) (Option Err)
  keep_watcher (err e) s = (returned (some e), s)
  keep_watcher (ok watcher) s = (returned none, record s { watchers = s.watchers ++ watcher ∷ [] })

  unfoldable pub add_unstructured_watch :
      Mapping → (namespace : String) → Unstructured → Act (Watching W) (Option Err)
  unfolding keep_watcher
  add_unstructured_watch mapping namespace obj = do
    r ← outside (call (dynamic.watch mapping namespace (concat ("metadata.name=" ∷ obj.name ∷ []))))
    keep_watcher r

  -- stopAllUnstructuredWatchers: the list stays as it is.
  unfoldable pub stop_watchers : List ℕ → Act W (Unit {0})
  stop_watchers [] = pure tt
  stop_watchers (w ∷ watchers) = call (dynamic.stop w) >> stop_watchers watchers

  unfoldable pub stop_all_unstructured_watchers : Act (Watching W) (Unit {0})
  unfolding stop_watchers
  stop_all_unstructured_watchers s = outside (stop_watchers s.watchers) s

  module _ (cr : NvMesh) (create : Bool) (mapping : Mapping) (namespace : String) where
    unfoldable pub create_unstructured : Unstructured → GroupVersionKind → Act W (Option Err)
    unfolding set_controller_reference_on_unstructured
    create_unstructured obj gvk =
        let owned = set_controller_reference_on_unstructured dynamic cr obj gvk in
        do
          e ← call (dynamic.create mapping namespace owned)
          pure (
              wrap_error e (
                concat (
                  "Error while trying to create object using dynamic client "
                  ∷ mapping
                  ∷ ". Object: "
                  ∷ dynamic.encode owned
                  ∷ [])))

    unfoldable pub delete_unstructured : (name : String) → Act W (Option Err)
    delete_unstructured name = do
      e ← call (dynamic.delete mapping namespace name)
      pure (
          wrap_error e
            (concat ("Error while trying to delete object using dynamic client " ∷ mapping ∷ [])))

    -- What follows the look-up of an object: what is added to the list of errors.
    unfoldable pub found_unstructured :
        Unstructured → GroupVersionKind → Result Unstructured → Act W (Option Err)
    unfolding create_unstructured delete_unstructured
    found_unstructured obj gvk (ok _) = if create then pure none else delete_unstructured obj.name
    found_unstructured obj gvk (err e) =
        if is_not_found e
        then if create then create_unstructured obj gvk else pure none
        else pure (
            some (
              Err.wrap e
                (concat ("Error while trying to get object using dynamic client " ∷ mapping ∷ []))))

    unfoldable pub reconcile_unstructured : Unstructured → GroupVersionKind → Act W (Option Err)
    unfolding found_unstructured
    reconcile_unstructured obj gvk = do
      found ← call (dynamic.get mapping namespace obj.name)
      found_unstructured obj gvk found

    -- The watch is first; its error ends the loop.
    unfoldable pub watch_and_reconcile :
        Unstructured → GroupVersionKind → Act (Watching W) (Result (Option Err))
    unfolding add_unstructured_watch reconcile_unstructured
    watch_and_reconcile obj gvk = do
      e ← if create then add_unstructured_watch mapping namespace obj else pure none
      elim e [
        | some x ↦ pure (err x)
        | none ↦ outside (reconcile_unstructured obj gvk) >>= λ e'. pure (ok e')
      ]

  module _ (cr : NvMesh) (create : Bool) where
    -- A kind that has no mapping is passed over.
    unfoldable pub mapped_unstructured :
        Unstructured → GroupVersionKind → Result Mapping → Act (Watching W) (Result (Option Err))
    unfolding watch_and_reconcile get_namespace_for_object
    mapped_unstructured obj gvk (err _) = pure (ok none)
    mapped_unstructured obj gvk (ok mapping) =
        watch_and_reconcile cr create mapping (get_namespace_for_object cr gvk) obj gvk

    -- One file: an error that ends the loop, or what is added to the list of errors.
    unfoldable pub decoded_unstructured :
        (file : String)
        → Updater
        → Result (Unstructured × GroupVersionKind)
        → Act (Watching W) (Result (Option Err))
    unfolding mapped_unstructured find_gvr
    decoded_unstructured file process_func (err e) = pure (
        err (
          Err.wrap e (
            concat ("Error while trying to read Unstructured Object from YAML file " ∷ file ∷ []))))
    decoded_unstructured file process_func (ok decoded) =
        let (obj, gvk) = process_func cr decoded in
        outside (find_gvr gvk) >>= mapped_unstructured obj gvk

    unfoldable pub reconcile_unstructured_file :
        Updater → (file : String) → Act (Watching W) (Result (Option Err))
    unfolding yaml_file_to_unstructured decoded_unstructured
    reconcile_unstructured_file process_func file = do
      r ← outside (yaml_file_to_unstructured file)
      decoded_unstructured file process_func r

    -- The errors of a file, behind those before it
    unfoldable pub append_error : List Err → Option Err → List Err
    append_error errors none = errors
    append_error errors (some e) = errors ++ e ∷ []

    -- the loop over the files, with the errors so far
    unfoldable pub reconcile_unstructured_files :
        Updater → List Err → List String → Act (Watching W) (Option Err)
    unfolding reconcile_unstructured_file append_error first_error
    reconcile_unstructured_files process_func errors [] = pure (first_error errors)
    reconcile_unstructured_files process_func errors (file ∷ files) = do
      r ← reconcile_unstructured_file process_func file
      elim r [
        | err x ↦ pure (some x)
        | ok e ↦ reconcile_unstructured_files process_func (append_error errors e) files
      ]

    unfoldable pub reconcile_unstructured_objects :
        (directory : String) → Updater → Act (Watching W) (Option Err)
    unfolding list_files_in_sub_dirs reconcile_unstructured_files
    reconcile_unstructured_objects directory process_func = do
      r ← outside (list_files_in_sub_dirs client directory)
      elim r [
        | err e ↦ pure (some e)
        | ok files ↦ reconcile_unstructured_files process_func [] files
      ]
