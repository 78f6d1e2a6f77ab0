-- ===== src/Resources/Deploy.antt =====
-- Deploying a directory: when no error is reported, every object of every file is stored.
use nvmesh_k8s_operator.Prelude.{
  String, true, false, Option, none, some, List, [], ◌∷◌, ◌≡◌, refl, sym, ap, ◌∙◌, subst, arith,
  All, split,
}
use nvmesh_k8s_operator.Api.{NvMesh}
use nvmesh_k8s_operator.Kube.{Client, Ran, returned, panicked, Err, ok, Obj}
use nvmesh_k8s_operator.Kube.Keeps.{Keeps, keeps_rules, bind-returned}
use nvmesh_k8s_operator.Yaml.{
  YamlError, parse_error, read_error, yaml_file_to_objects, yaml_string_to_objects,
}
use nvmesh_k8s_operator.Yaml.Laws.{sound_objects, Parsed, yaml_string_to_objects-Parsed}
use nvmesh_k8s_operator.Objects.{Component, reconcile_object}
use nvmesh_k8s_operator.Objects.Quiet.{Quiet, IsWellBehaved, FixedFiles}
use nvmesh_k8s_operator.Objects.Exists.{
  Exists, make_sure_object_exists-Exists, make_sure_object_exists-keeps,
}
use nvmesh_k8s_operator.Resources.{
  collect_error, first_error, reconcile_objects, reconcile_parsed, reconcile_read,
  reconcile_yaml_objects_from_file,
}

pub first_error-none : (errors : List Err) → first_error errors ≡ none → errors ≡ []
unfolding first_error
first_error-none [] h = refl
first_error-none (e ∷ errors) h = cc

module _ {W : Type 0} (client : Client W) (quiet : Quiet client) (component : Component W)
    (good : IsWellBehaved quiet component) (cr : NvMesh) where
  abbrev Stored : W → Obj → Type 0
  Stored w o = Exists client quiet component good w cr o

  module _ (k ns n : String) where
    abbrev pub Present : W → Type 0
    Present w = quiet.exists w k ns n ≡ true

    reconcile_object-Keeps :
        (o : Obj) → Keeps Present (reconcile_object client cr o component false)
    unfolding reconcile_object
    reconcile_object-Keeps o = record {
      after = λ w h. make_sure_object_exists-keeps client quiet component good cr o w k ns n h;
    }

    pub reconcile_objects-Keeps :
        (objects : List Obj) → Keeps Present (reconcile_objects client cr component false objects)
    unfolding reconcile_objects
    reconcile_objects-Keeps [] = search keeps_rules
    reconcile_objects-Keeps (o ∷ objects) =
        search (keeps_rules, reconcile_object-Keeps o, reconcile_objects-Keeps objects)

  reconcile_object-Stored :
      (o : Obj) (w : W)
      → (reconcile_object client cr o component false w).0 ≡ returned none
      → Stored (reconcile_object client cr o component false w).1 o
  unfolding reconcile_object
  reconcile_object-Stored o w h =
      make_sure_object_exists-Exists client quiet component good cr o w h

  collect_error-nil :
      (e : Option Err) (errors : List Err)
      → collect_error e errors ≡ []
      → (e ≡ none) × (errors ≡ [])
  unfolding collect_error
  collect_error-nil none errors h = (refl, h)
  collect_error-nil (some x) errors h = cc

  reconcile_objects-Stored :
      (objects : List Obj) (w : W)
      → (reconcile_objects client cr component false objects w).0 ≡ returned []
      → All (Stored (reconcile_objects client cr component false objects w).1) objects
  unfolding reconcile_objects
  reconcile_objects-Stored [] w h = tt
  reconcile_objects-Stored (o ∷ objects) w h =
      let (e, ran, rest, same) =
        bind-returned (reconcile_object client cr o component false) _ w h in
      let w1 = (reconcile_object client cr o component false w).1 in
      let (errors, ran', gathered, same') =
        bind-returned (reconcile_objects client cr component false objects) _ w1 rest in
      let (clean, all_clean) = collect_error-nil e errors (ground arith) in
      let final : (reconcile_objects client cr component false (o ∷ objects) w).1
          ≡ (reconcile_objects client cr component false objects w1).1 =
        ap (λ p. p.1) (same ∙ same') in
      subst (λ w'. All (Stored w') (o ∷ objects)) (sym final)
        (
          (reconcile_objects-Keeps _ _ _ objects).after w1
              (reconcile_object-Stored o w (ground arith)),
          reconcile_objects-Stored objects w1 (ground arith),
        )

  reconcile_parsed-Stored :
      (objects : List Obj) (w : W)
      → (reconcile_parsed client cr component false objects w).0 ≡ returned none
      → All (Stored (reconcile_parsed client cr component false objects w).1) objects
  unfolding reconcile_parsed
  reconcile_parsed-Stored objects w h =
      let (errors, ran, none_left, same) =
        bind-returned (reconcile_objects client cr component false objects) _ w h in
      subst (λ w'. All (Stored w') objects) (sym (ap (λ p. p.1) same))
        (reconcile_objects-Stored objects w (ground (arith, first_error-none errors)))

module _ {W : Type 0} (client : Client W) (quiet : Quiet client) (files : FixedFiles quiet)
    (component : Component W) (good : IsWellBehaved quiet component) (cr : NvMesh) where
  -- Every object of a file is stored.
  abbrev pub FileStored : W → String → Type 0
  FileStored w f =
      (yaml : String)
      → files.contents f ≡ ok yaml
      → All (Exists client quiet component good w cr) (sound_objects client (split yaml "\n---\n"))

  yaml_file-eq :
      (f yaml : String) (w : W)
      → files.contents f ≡ ok yaml
      → yaml_file_to_objects client f w
        ≡ yaml_string_to_objects client yaml (client.read_file f w).1
  unfolding yaml_file_to_objects
  yaml_file-eq f yaml w text = ground (arith, files.read_same f w)

  Parsed-objects :
      (docs : List String) (r : Ran (List Obj × Option YamlError)) (objects : List Obj)
      (e : Option YamlError)
      → Parsed client docs r
      → r ≡ returned (objects, e)
      → objects ≡ sound_objects client docs
  Parsed-objects docs (returned (os, x)) objects e p h = ground arith
  Parsed-objects docs panicked objects e p h = cc

  reconcile_read-Stored :
      (objects : List Obj) (e : Option YamlError) (w : W)
      → (reconcile_read client cr component false objects e w).0 ≡ returned none
      → All
          (Exists client quiet component good
            (reconcile_read client cr component false objects e w).1
            cr)
          objects
  unfolding reconcile_read
  reconcile_read-Stored objects (some (read_error x)) w h = cc
  reconcile_read-Stored objects (some (parse_error _)) w h =
      reconcile_parsed-Stored client quiet component good cr objects w h
  reconcile_read-Stored objects none w h =
      reconcile_parsed-Stored client quiet component good cr objects w h

  -- If a file is reconciled without an error, every object that its documents decode to without an
  -- error is stored.
  pub reconcile_file-FileStored :
      (f : String) (w : W)
      → (reconcile_yaml_objects_from_file client cr component false f w).0 ≡ returned none
      → FileStored (reconcile_yaml_objects_from_file client cr component false f w).1 f
  unfolding reconcile_yaml_objects_from_file
  reconcile_file-FileStored f w h yaml text =
      let ((objects, e), ran, rest, same) = bind-returned (yaml_file_to_objects client f) _ w h in
      let w1 = (yaml_file_to_objects client f w).1 in
      let w0 = (client.read_file f w).1 in
      let (parsed, unchanged) = yaml_string_to_objects-Parsed client yaml w0 in
      let found : objects ≡ sound_objects client (split yaml "\n---\n") =
        Parsed-objects (split yaml "\n---\n") _ objects e parsed
          (ap (λ p. p.0) (sym (yaml_file-eq f yaml w text)) ∙ ran) in
      subst
        (λ w'.
          All (Exists client quiet component good w' cr)
            (sound_objects client (split yaml "\n---\n")))
        (sym (ap (λ p. p.1) same))
        (subst
          (λ os.
            All
              (Exists client quiet component good
                (reconcile_read client cr component false objects e w1).1 cr)
              os)
          found (reconcile_read-Stored objects e w1 rest))
