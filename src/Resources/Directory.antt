-- ===== src/Resources/Directory.antt =====
-- Deploying a whole directory: when no error is reported, every object of every file is stored.
use nvmesh_k8s_operator.Prelude.{
  Bool, String, true, false, Option, none, some, List, [], ◌∷◌, ◌≡◌, sym, ap, subst, arith, All,
  All-map,
}
use nvmesh_k8s_operator.Api.{NvMesh}
use nvmesh_k8s_operator.Kube.{Client, Ran, returned, Err, Result, ok, err, Obj, pure, call, Act}
use nvmesh_k8s_operator.Kube.Keeps.{
  Keeps, keeps_rules, Keeps-call, Keeps-pure, Keeps-bind, Keeps-result, Keeps-option, Keeps-panic,
  bind-returned,
}
use nvmesh_k8s_operator.Yaml.{
  yaml_file_to_string, yaml_file_to_objects, yaml_string_to_objects, parse_error, read_error,
  YamlError,
}
use nvmesh_k8s_operator.Yaml.Laws.{yaml_string_to_objects-Parsed}
use nvmesh_k8s_operator.Objects.{Component}
use nvmesh_k8s_operator.Objects.Quiet.{Quiet, IsWellBehaved, FixedFiles}
use nvmesh_k8s_operator.Resources.{
  reconcile_parsed, reconcile_read, reconcile_yaml_objects_from_file, reconcile_files, walk_files,
  list_files_in_dir, create_objects_from_dir,
}
use nvmesh_k8s_operator.Resources.Deploy.{
  reconcile_objects-Keeps, FileStored, reconcile_file-FileStored,
}
use nvmesh_k8s_operator.Resources.Walk.{paths_of, list_files_in_dir-paths_of}

module _ {W : Type 0} (client : Client W) (quiet : Quiet client) (files : FixedFiles quiet)
    (component : Component W) (good : IsWellBehaved quiet component) (cr : NvMesh) where
  module _ (k ns n : String) where
    abbrev Present : W → Type 0
    Present w = quiet.exists w k ns n ≡ true

    parse-Keeps : (yaml : String) → Keeps Present (yaml_string_to_objects client yaml)
    parse-Keeps yaml = record {
      after = λ w p. subst Present (sym (yaml_string_to_objects-Parsed client yaml w).1) p;
    }

    read-Keeps : (f : String) → Keeps Present (call (client.read_file f))
    read-Keeps f = Keeps-call (client.read_file f) (λ w p. files.read_keeps f w k ns n p)

    text-Keeps : (f : String) → Keeps Present (yaml_file_to_string client f)
    unfolding yaml_file_to_string
    text-Keeps f = record { after = λ w p. ground (arith, files.read_keeps f w k ns n p) }

    load-Keeps : (f : String) → Keeps Present (yaml_file_to_objects client f)
    unfolding yaml_file_to_objects
    load-Keeps f =
        Keeps-bind _ _ (text-Keeps f)
          (λ r. Keeps-result r _ _ parse-Keeps (λ e. Keeps-pure ([], some (read_error e))))

    apply-Keeps :
        (objects : List Obj) → Keeps Present (reconcile_parsed client cr component false objects)
    unfolding reconcile_parsed
    apply-Keeps objects =
        search (keeps_rules, reconcile_objects-Keeps client quiet component good cr k ns n objects)

    reconcile_read-Keeps :
        (objects : List Obj) (e : Option YamlError)
        → Keeps Present (reconcile_read client cr component false objects e)
    unfolding reconcile_read
    reconcile_read-Keeps objects (some (read_error x)) = search keeps_rules
    reconcile_read-Keeps objects (some (parse_error x)) = apply-Keeps objects
    reconcile_read-Keeps objects none = apply-Keeps objects

    file-Keeps :
        (f : String) → Keeps Present (reconcile_yaml_objects_from_file client cr component false f)
    unfolding reconcile_yaml_objects_from_file
    file-Keeps f = search (keeps_rules, load-Keeps f, reconcile_read-Keeps)

    files-Keeps : (fs : List String) → Keeps Present (reconcile_files client cr component false fs)
    unfolding reconcile_files
    files-Keeps [] = search keeps_rules
    files-Keeps (f ∷ fs) =
        Keeps-bind _ _ (file-Keeps f)
          (λ e. Keeps-option e _ _ (files-Keeps fs) (λ x. Keeps-pure (some x)))

  -- A deployment removes no object, of whatever kind.
  module _ (k ns n : String) where
    walk_files-Keeps :
        (entries : List (String × Option Bool)) → Keeps (Present k ns n) (walk_files entries)
    unfolding walk_files
    walk_files-Keeps [] = search keeps_rules
    walk_files-Keeps ((path, none) ∷ entries) = Keeps-panic
    walk_files-Keeps ((path, some is_dir) ∷ entries) =
        search (keeps_rules, walk_files-Keeps entries)

    list-Keeps : (dir : String) → Keeps (Present k ns n) (list_files_in_dir client dir true)
    unfolding list_files_in_dir
    list-Keeps dir =
        Keeps-bind _ _ (Keeps-call (client.walk dir) (λ w p. files.walk_keeps dir w k ns n p))
          (λ entries. Keeps-bind _ _ (walk_files-Keeps entries) (λ fs. Keeps-pure (ok fs)))

    pub create_objects_from_dir-Keeps :
        (dir : String)
        → Keeps
            (λ w. quiet.exists w k ns n ≡ true)
            (create_objects_from_dir client cr component dir true)
    unfolding create_objects_from_dir
    create_objects_from_dir-Keeps dir =
        Keeps-bind _ _ (list-Keeps dir)
          (λ r. Keeps-result r _ _ (files-Keeps k ns n) (λ e. Keeps-pure (some e)))

  abbrev Stored : W → String → Type 0
  Stored w f = FileStored client quiet files component good cr w f

  FileStored-later :
      (fs : List String) (w : W) (f : String)
      → Stored w f
      → Stored (reconcile_files client cr component false fs w).1 f
  FileStored-later fs w f h yaml text =
      All-map _ _ _ (λ o p. (files-Keeps _ _ _ fs).after w p) (h yaml text)

  reconcile_files-Stored :
      (fs : List String) (w : W)
      → (reconcile_files client cr component false fs w).0 ≡ returned none
      → All (Stored (reconcile_files client cr component false fs w).1) fs
  unfolding reconcile_files
  reconcile_files-Stored [] w h = tt
  reconcile_files-Stored (f ∷ fs) w h =
      let (e, ran, rest, same) =
        bind-returned (reconcile_yaml_objects_from_file client cr component false f) _ w h in
      go e ran rest same (λ w' h'. reconcile_files-Stored fs w' h')
    where
      w1 : W
      w1 = (reconcile_yaml_objects_from_file client cr component false f w).1

      go :
          (e : Option Err)
          → (reconcile_yaml_objects_from_file client cr component false f w).0 ≡ returned e
          → (◌≡◌ {A = Ran (Option Err)}
              ((elim e as (λ _. Act W (Option Err)) [
                | some x ↦ pure (some x)
                | none ↦ reconcile_files client cr component false fs
              ])
                w1).0
              (returned none))
          → reconcile_files client cr component false (f ∷ fs) w
            ≡ (elim e as (λ _. Act W (Option Err)) [
              | some x ↦ pure (some x)
              | none ↦ reconcile_files client cr component false fs
            ])
                w1
          → ((w' : W)
              → (reconcile_files client cr component false fs w').0 ≡ returned none
              → All (Stored (reconcile_files client cr component false fs w').1) fs)
          → All (Stored (reconcile_files client cr component false (f ∷ fs) w).1) (f ∷ fs)
      go (some x) ran rest same later = cc
      go none ran rest same later =
          subst (λ w'. All (Stored w') (f ∷ fs)) (sym (ap (λ p. p.1) same))
            (
              FileStored-later fs w1 f
                  (reconcile_file-FileStored client quiet files component good cr f w ran),
              later w1 rest,
            )

  pub create_objects_from_dir-stores :
      (dir : String) (w : W)
      → (create_objects_from_dir client cr component dir true w).0 ≡ returned none
      → All
          (Stored (create_objects_from_dir client cr component dir true w).1)
          (paths_of (client.walk dir w).0)
  unfolding create_objects_from_dir
  create_objects_from_dir-stores dir w h =
      let (r, ran, rest, same) = bind-returned (list_files_in_dir client dir true) _ w h in
      go r (list_files_in_dir-paths_of client dir w r ran) rest (ap (λ p. p.1) same)
    where
      w1 : W
      w1 = (list_files_in_dir client dir true w).1

      fs : List String
      fs = paths_of (client.walk dir w).0

      next : Result (List String) → Act W (Option Err)
      next r = elim r [
        | err e ↦ pure (some e)
        | ok fs ↦ reconcile_files client cr component false fs
      ]

      go :
          (r : Result (List String))
          → r ≡ ok fs
          → (next r w1).0 ≡ returned none
          → (create_objects_from_dir client cr component dir true w).1 ≡ (next r w1).1
          → All (Stored (create_objects_from_dir client cr component dir true w).1) fs
      go (err e) q rest same = cc
      go (ok fs') q rest same =
          subst (λ w'. All (Stored w') fs) (sym same)
            (subst (λ l. All (Stored (reconcile_files client cr component false fs' w1).1) l)
              (ground arith) (reconcile_files-Stored fs' w1 rest))
