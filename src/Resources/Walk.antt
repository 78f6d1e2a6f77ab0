-- ===== src/Resources/Walk.antt =====
-- The files that `listFilesInSubDirs` of pkg/controllers/ctrl_utils.go lists, from the paths of a walk.
use nvmesh_k8s_operator.Prelude.{
  String, Bool, true, false, Option, none, some, List, [], ◌∷◌, ◌≡◌, arith,
}
use nvmesh_k8s_operator.Kube.{Client, returned, Result, ok, pure}
use nvmesh_k8s_operator.Kube.Keeps.{bind-returned}
use nvmesh_k8s_operator.Resources.{walk_files, list_files_in_sub_dirs, list_files_in_dir}

-- The paths of a walk that are no directories.
abbrev pub paths_of : List (String × Option Bool) → List String
paths_of [] = []
paths_of ((path, some false) ∷ entries) = path ∷ paths_of entries
paths_of (_ ∷ entries) = paths_of entries

module _ {W : Type 0} where
  walk_files-paths_of :
      (entries : List (String × Option Bool)) (w : W) (fs : List String)
      → (walk_files entries w).0 ≡ returned fs
      → (fs ≡ paths_of entries) × ((walk_files entries w).1 ≡ w)
  unfolding walk_files
  walk_files-paths_of [] w fs h = ground arith
  walk_files-paths_of ((path, none) ∷ entries) w fs h = ground arith
  walk_files-paths_of ((path, some true) ∷ entries) w fs h =
      let (rest, ran, last, same) = bind-returned (walk_files entries) _ w h in
      ground (arith, walk_files-paths_of entries w rest)
  walk_files-paths_of ((path, some false) ∷ entries) w fs h =
      let (rest, ran, last, same) = bind-returned (walk_files entries) _ w h in
      ground (arith, walk_files-paths_of entries w rest)

module _ {W : Type 0} (client : Client W) where
  -- The paths of the walk are listed, and nothing else is done.
  pub list_files_in_sub_dirs-paths_of :
      (dir : String) (w : W) (r : Result (List String))
      → (list_files_in_sub_dirs client dir w).0 ≡ returned r
      → (r ≡ ok (paths_of (client.walk dir w).0))
        × ((list_files_in_sub_dirs client dir w).1 ≡ (client.walk dir w).1)
  unfolding list_files_in_sub_dirs
  list_files_in_sub_dirs-paths_of dir w r h =
      let (entries, w1) = client.walk dir w in
      let (fs, walked, last, same) =
        bind-returned (walk_files entries) (λ fs. pure {A = Result (List String)} (ok fs)) w1 h in
      ground (arith, walk_files-paths_of entries w1 fs)

  pub list_files_in_dir-paths_of :
      (dir : String) (w : W) (r : Result (List String))
      → (list_files_in_dir client dir true w).0 ≡ returned r
      → r ≡ ok (paths_of (client.walk dir w).0)
  unfolding list_files_in_dir
  list_files_in_dir-paths_of dir w r h = (list_files_in_sub_dirs-paths_of dir w r h).0
