-- ===== src/Reconcile/Deployed.antt =====
-- What `reconcileAllcomponents` of pkg/controllers/nvmesh_controller.go has deployed when it ends without
-- an error: the directories of the core and the CSI driver.
use nvmesh_k8s_operator.Prelude.{
  String, Bool, true, false, Option, none, some, List, [], ◌∷◌, ◌≡◌, refl, sym, ap, ◌∙◌, subst,
  arith, All, All-map,
}
use nvmesh_k8s_operator.Api.{NvMesh}
use nvmesh_k8s_operator.Kube.{
  Act, Ran, returned, panicked, and_then, Err, CtrlResult, Outcome, do_not_requeue, pure,
}
use nvmesh_k8s_operator.Kube.Keeps.{bind-returned}
use nvmesh_k8s_operator.Operator.{Operator}
use nvmesh_k8s_operator.Objects.Quiet.{Quiet, IsWellBehaved, FixedFiles}
use nvmesh_k8s_operator.Resources.{collect_error, create_objects_from_dir}
use nvmesh_k8s_operator.Resources.Walk.{paths_of}
use nvmesh_k8s_operator.Resources.Deploy.{FileStored, first_error-none}
use nvmesh_k8s_operator.Resources.Directory.{
  create_objects_from_dir-stores, create_objects_from_dir-Keeps,
}
use nvmesh_k8s_operator.Uninstall.{not_again, core_assets_location, csi_assets_location}
use nvmesh_k8s_operator.Mgmt.{reconcile_management}
use nvmesh_k8s_operator.Reconcile.{
  merge_result, keep_error, component_reconciled, reconcile_components, merged, reconcile_core,
  reconcile_csi, reconcile_all_components,
}

module _ {W : Type 0} (op : Operator W) (cr : NvMesh) where
  kept_none :
      (e : Option Err) (r : Ran (CtrlResult × List Err)) (w : W) (final : CtrlResult)
      → (and_then r (keep_error op e) w).0 ≡ returned (final, [])
      → (e ≡ none) × (r ≡ returned (final, [])) × ((and_then r (keep_error op e) w).1 ≡ w)
  unfolding collect_error
  kept_none none (returned kept) w final h = (refl, h, refl)
  kept_none (some x) (returned kept) w final h = cc
  kept_none e panicked w final h = cc

  -- Where the loop collects no error, the first component returns none, and the loop goes on.
  components-none :
      (component : NvMesh → Act W Outcome) (components : List (NvMesh → Act W Outcome))
      (minimal : CtrlResult) (w : W) (final : CtrlResult)
      → (reconcile_components op cr (component ∷ components) minimal w).0 ≡ returned (final, [])
      → (result : CtrlResult) × ((component cr w).0 ≡ returned (result, none))
        × ((reconcile_components op cr components
              (merge_result minimal result)
              (component cr w).1).0
            ≡ returned (final, []))
        × ((reconcile_components op cr (component ∷ components) minimal w).1
            ≡ (reconcile_components op cr components
                (merge_result minimal result)
                (component cr w).1).1)
  unfolding reconcile_components component_reconciled
  components-none component components minimal w final h =
      let ((result, e), ran, went_on, same) =
        bind-returned (component cr)
          (component_reconciled op (reconcile_components op cr components) minimal) w h in
      let w1 = (component cr w).1 in
      let out = reconcile_components op cr components (merge_result minimal result) w1 in
      let (clean, rest, kept) = kept_none e out.0 out.1 final went_on in
      (result, rw (← clean) ran, rest, ap (λ p. p.1) same ∙ kept)

  not_again-none :
      (m : Act W (Option Err)) (w : W) (result : CtrlResult)
      → (not_again m w).0 ≡ returned (result, none)
      → ((m w).0 ≡ returned none) × ((not_again m w).1 ≡ (m w).1)
  not_again-none m w result h =
      let (e, ran, last, same) =
        bind-returned m (λ e. pure {A = Outcome} (do_not_requeue, e)) w h in
      (ground arith, ap (λ p. p.1) same)

  core-none :
      (w : W) (result : CtrlResult)
      → cr.spec.core.disabled ≡ false
      → (reconcile_core op cr w).0 ≡ returned (result, none)
      → ((create_objects_from_dir op.client cr op.core core_assets_location true w).0
          ≡ returned none)
        × ((reconcile_core op cr w).1
            ≡ (create_objects_from_dir op.client cr op.core core_assets_location true w).1)
  unfolding reconcile_core
  core-none w result enabled h = rw enabled (
      not_again-none (create_objects_from_dir op.client cr op.core core_assets_location true) w
        result (rw enabled at h))

  csi-none :
      (w : W) (result : CtrlResult)
      → cr.spec.csi.disabled ≡ false
      → (reconcile_csi op cr w).0 ≡ returned (result, none)
      → ((create_objects_from_dir op.client cr op.csi csi_assets_location true w).0 ≡ returned none)
        × ((reconcile_csi op cr w).1
            ≡ (create_objects_from_dir op.client cr op.csi csi_assets_location true w).1)
  unfolding reconcile_csi
  csi-none w result enabled h = rw enabled (
      not_again-none (create_objects_from_dir op.client cr op.csi csi_assets_location true) w result
        (rw enabled at h))

module _ {W : Type 0} (op : Operator W) (quiet : Quiet op.client) (files : FixedFiles quiet)
    (core_good : IsWellBehaved quiet op.core) (csi_good : IsWellBehaved quiet op.csi) (cr : NvMesh)
    (listing : String → List (String × Option Bool))
    (lists : (dir : String) (w : W) → (op.client.walk dir w).0 ≡ listing dir) where
  -- Every object of every file of the two directories is stored.
  abbrev pub AreDeployed : W → Type 0
  AreDeployed w =
      All (FileStored op.client quiet files op.core core_good cr w)
        (paths_of (listing core_assets_location))
      × All (FileStored op.client quiet files op.csi csi_good cr w)
          (paths_of (listing csi_assets_location))

  core_later :
      (f : String) (w : W)
      → FileStored op.client quiet files op.core core_good cr w f
      → FileStored op.client quiet files op.core core_good cr
          (create_objects_from_dir op.client cr op.csi csi_assets_location true w).1
          f
  core_later f w stored yaml text =
      All-map _ _ _
        (λ o p.
          (create_objects_from_dir-Keeps op.client quiet files op.csi csi_good cr _ _ _
              csi_assets_location).after
            w p)
        (stored yaml text)

  core_then_csi :
      (w : W)
      → (create_objects_from_dir op.client cr op.core core_assets_location true w).0 ≡ returned none
      → (create_objects_from_dir op.client cr op.csi csi_assets_location true
          (create_objects_from_dir op.client cr op.core core_assets_location true w).1).0
        ≡ returned none
      → AreDeployed
          (create_objects_from_dir op.client cr op.csi csi_assets_location true
            (create_objects_from_dir op.client cr op.core core_assets_location true w).1).1
  core_then_csi w core csi =
      let w1 = (create_objects_from_dir op.client cr op.core core_assets_location true w).1 in
      (
        All-map (FileStored op.client quiet files op.core core_good cr w1)
            (FileStored op.client quiet files op.core core_good cr
              (create_objects_from_dir op.client cr op.csi csi_assets_location true w1).1)
            (paths_of (listing core_assets_location)) (λ f. core_later f w1)
            (rw (← lists core_assets_location w) (
              create_objects_from_dir-stores op.client quiet files op.core core_good cr
                core_assets_location w core)),
        rw (← lists csi_assets_location w1) (
            create_objects_from_dir-stores op.client quiet files op.csi csi_good cr
              csi_assets_location w1 csi),
      )

  -- If reconcileAllcomponents ends without an error and neither the core nor the CSI driver is disabled,
  -- then every object of every file in the directories of both is stored at the end: the management
  -- goes first, and the CSI driver removes nothing of the core. The API server answers as documented,
  -- nobody else deletes objects meanwhile, the resource files and their list do not change, and the
  -- components keep the law of their interface.
  pub reconcile_all_components-AreDeployed :
      cr.spec.core.disabled ≡ false
      → cr.spec.csi.disabled ≡ false
      → (w : W) (result : CtrlResult)
      → (reconcile_all_components op cr w).0 ≡ returned (result, none)
      → AreDeployed (reconcile_all_components op cr w).1
  unfolding reconcile_all_components reconcile_components
  reconcile_all_components-AreDeployed core_enabled csi_enabled w result h =
      let components = reconcile_management op ∷ reconcile_core op ∷ reconcile_csi op ∷ [] in
      let ((final, errors), ran, last, same) =
        bind-returned (reconcile_components op cr components do_not_requeue) (merged op) w h in
      let clean : errors ≡ [] = first_error-none errors (ground arith) in
      let (r1, mgmt, rest1, same1) =
        components-none op cr (reconcile_management op) (reconcile_core op ∷ reconcile_csi op ∷ [])
          do_not_requeue w final (ran ∙ ap (λ es. returned (final, es)) clean) in
      let (r2, core, rest2, same2) =
        components-none op cr (reconcile_core op) (reconcile_csi op ∷ []) _ _ final rest1 in
      let (r3, csi, rest3, same3) = components-none op cr (reconcile_csi op) [] _ _ final rest2 in
      let w1 = (reconcile_management op cr w).1 in
      let (core_done, core_world) = core-none op cr w1 r2 core_enabled core in
      let (csi_done, csi_world) = csi-none op cr (reconcile_core op cr w1).1 r3 csi_enabled csi in
      subst AreDeployed
        (sym (
          ap (λ p. p.1) same
          ∙ same1
          ∙ same2
          ∙ same3
          ∙ csi_world
          ∙ ap (λ v. (create_objects_from_dir op.client cr op.csi csi_assets_location true v).1)
              core_world))
        (core_then_csi w1 core_done (
          subst
            (λ v.
              (create_objects_from_dir op.client cr op.csi csi_assets_location true v).0
              ≡ returned none)
            core_world csi_done))
