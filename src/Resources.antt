-- ===== src/Resources.antt =====
-- The resource directories, in pkg/controllers/ctrl_utils.go: listing the files, and creating or
-- removing the objects of every file.
pub mod Deploy
pub mod Directory
pub mod Walk
use nvmesh_k8s_operator.Prelude.{
  String, Bool, true, false, Option, none, some, List, [], ◌∷◌, concat, if◌then◌else◌,
}
use nvmesh_k8s_operator.Api.{NvMesh}
use nvmesh_k8s_operator.Kube.{Client, Act, pure, panic, call, ◌>>=◌, Err, Result, ok, err, Obj}
use nvmesh_k8s_operator.Yaml.{YamlError, parse_error, read_error, yaml_file_to_objects}
use nvmesh_k8s_operator.Objects.{Component, reconcile_object}

-- `reconcileErrors = append(reconcileErrors, err)` if there is an error
unfoldable pub collect_error : Option Err → List Err → List Err
collect_error none errors = errors
collect_error (some e) errors = e ∷ errors

-- `if len(errors) > 0 { return errors[0] }`
unfoldable pub first_error : List Err → Option Err
first_error [] = none
first_error (e ∷ _) = some e

-- path.Join(dir, name) for a clean directory name
abbrev pub path_join : String → String → String
path_join dir name = concat (dir ∷ "/" ∷ name ∷ [])

unfoldable pub files_of : String → List (String × Bool) → List String
files_of dir [] = []
files_of dir ((name, is_dir) ∷ entries) =
    let rest = files_of dir entries in if is_dir then rest else path_join dir name ∷ rest

-- The callback of `filepath.Walk`, on each path: a nil FileInfo is a panic.
unfoldable pub walk_files : {W : Type 0} → List (String × Option Bool) → Act W (List String)
walk_files [] = pure []
walk_files ((path, none) ∷ entries) = panic
walk_files ((path, some is_dir) ∷ entries) = do
  rest ← walk_files entries
  pure (if is_dir then rest else path ∷ rest)

module _ {W : Type 0} (client : Client W) where
  unfoldable pub list_files_in_sub_dirs : String → Act W (Result (List String))
  unfolding walk_files
  list_files_in_sub_dirs root = do
    entries ← call (client.walk root)
    files ← walk_files entries
    pure (ok files)

  unfoldable pub list_files_in_this_dir : String → Act W (Result (List String))
  unfolding files_of
  list_files_in_this_dir dir = do
    r ← call (client.read_dir dir)
    elim r [ err e ↦ pure (err e) | ok entries ↦ pure (ok (files_of dir entries)) ]

  unfoldable pub list_files_in_dir : String → (recursive : Bool) → Act W (Result (List String))
  unfolding list_files_in_sub_dirs list_files_in_this_dir
  list_files_in_dir dir true = list_files_in_sub_dirs dir
  list_files_in_dir dir false = list_files_in_this_dir dir

  module _ (cr : NvMesh) (component : Component W) (remove : Bool) where
    -- the loop of `reconcileYamlObjectsFromFile`: every object is tried, and the errors are kept
    unfoldable pub reconcile_objects : List Obj → Act W (List Err)
    unfolding collect_error
    reconcile_objects [] = pure []
    reconcile_objects (o ∷ objects) = do
      e ← reconcile_object client cr o component remove
      errors ← reconcile_objects objects
      pure (collect_error e errors)

    unfoldable pub reconcile_parsed : List Obj → Act W (Option Err)
    unfolding reconcile_objects first_error
    reconcile_parsed objects = do errors ← reconcile_objects objects; pure (first_error errors)

    -- What follows the reading: documents that did not parse are only logged.
    unfoldable pub reconcile_read : List Obj → Option YamlError → Act W (Option Err)
    unfolding reconcile_parsed
    reconcile_read objects (some (read_error x)) = pure (some x)
    reconcile_read objects (some (parse_error _)) = reconcile_parsed objects
    reconcile_read objects none = reconcile_parsed objects

    unfoldable pub reconcile_yaml_objects_from_file : String → Act W (Option Err)
    unfolding reconcile_read
    reconcile_yaml_objects_from_file filename = do
      (objects, e) ← yaml_file_to_objects client filename
      reconcile_read objects e

    -- the loop of `reconcileYamlObjectsFromDir`: it stops at the first file with an error
    unfoldable pub reconcile_files : List String → Act W (Option Err)
    unfolding reconcile_yaml_objects_from_file
    reconcile_files [] = pure none
    reconcile_files (file ∷ files) = do
      e ← reconcile_yaml_objects_from_file file
      elim e [ some x ↦ pure (some x) | none ↦ reconcile_files files ]

    unfoldable pub reconcile_yaml_objects_from_dir :
        (dir : String) → (recursive : Bool) → Act W (Option Err)
    unfolding reconcile_files
    reconcile_yaml_objects_from_dir dir recursive = do
      r ← list_files_in_dir dir recursive
      elim r [ err e ↦ pure (some e) | ok files ↦ reconcile_files files ]

  unfoldable pub create_objects_from_dir :
      NvMesh → Component W → (dir : String) → (recursive : Bool) → Act W (Option Err)
  unfolding reconcile_yaml_objects_from_dir
  create_objects_from_dir cr component dir recursive =
      reconcile_yaml_objects_from_dir cr component false dir recursive

  unfoldable pub remove_objects_from_dir :
      NvMesh → Component W → (dir : String) → (recursive : Bool) → Act W (Option Err)
  unfolding reconcile_yaml_objects_from_dir
  remove_objects_from_dir cr component dir recursive =
      reconcile_yaml_objects_from_dir cr component true dir recursive
