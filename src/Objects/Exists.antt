-- ===== src/Objects/Exists.antt =====
-- `makeSureObjectExists`: an object that it reports no error about is there.
use nvmesh_k8s_operator.Prelude.{
  String, Bool, true, false, none, some, ◌≡◌, refl, arith, inl, inr, Bool-cases, Option-cases,
}
use nvmesh_k8s_operator.Api.{NvMesh}
use nvmesh_k8s_operator.Kube.{
  Client, Ran, returned, panicked, Result, ok, err, is_not_found, Obj, kind_of,
}
use nvmesh_k8s_operator.Objects.{
  object_namespace, Component, add_operator_labels, get_generic_object, create_object,
  update_object, create_or_update, prepare, prepared, make_sure_object_exists,
}
use nvmesh_k8s_operator.Objects.Quiet.{Quiet, IsWellBehaved}

module _ {W : Type 0} (client : Client W) (quiet : Quiet client) (component : Component W)
    (good : IsWellBehaved quiet component) where
  -- The object's own key.
  abbrev pub Exists : W → NvMesh → Obj → Type 0
  Exists w cr o =
      quiet.exists w (kind_of o.body) (object_namespace (kind_of o.body) cr.meta.namespace) o.name
      ≡ true

  prepare-key :
      (cr : NvMesh) (o o' : Obj)
      → prepare client (some component) cr o ≡ returned (ok o')
      → (kind_of o'.body ≡ kind_of o.body) × (o'.namespace ≡ cr.meta.namespace) × (o'.name ≡ o.name)
  unfolding prepare
  prepare-key cr o o' h = go (component.init_object cr labelled) refl
    where
      labelled : Obj
      labelled = add_operator_labels cr (record o { namespace = cr.meta.namespace })

      go :
          (r : Ran (Result Obj))
          → component.init_object cr labelled ≡ r
          → (kind_of o'.body ≡ kind_of o.body)
            × (o'.namespace ≡ cr.meta.namespace)
            × (o'.name ≡ o.name)
      go (returned (ok o1)) e = ground (arith, good.init_keeps_key cr labelled o1)
      go (returned (err x)) e = ground arith
      go panicked e = ground arith

  create_object-Exists :
      (cr : NvMesh) (o : Obj) (w : W)
      → o.namespace ≡ cr.meta.namespace
      → (create_object client o w).0 ≡ returned none
      → Exists (create_object client o w).1 cr o
  unfolding create_object
  create_object-Exists cr o w e h = elim (Option-cases (client.create o w).0) [
    | inl c ↦ rw (← e) (quiet.create_creates o w c)
    | inr (x, c) ↦ rw (← e) (quiet.create_already o w x c (ground arith))
  ]

  update_object-keeps :
      (cr : NvMesh) (o found : Obj) (w : W) (k ns n : String)
      → quiet.exists w k ns n ≡ true
      → quiet.exists (update_object client (some component) cr o found w).1 k ns n ≡ true
  unfolding update_object
  update_object-keeps cr o found w k ns n h =
      go (component.should_update_object cr o found w).0 refl
    where
      w1 : W
      w1 = (component.should_update_object cr o found w).1

      kept : quiet.exists w1 k ns n ≡ true
      kept = good.compare_keeps cr o found w k ns n h

      go :
          (r : Ran (Bool × Obj))
          → (component.should_update_object cr o found w).0 ≡ r
          → quiet.exists (update_object client (some component) cr o found w).1 k ns n ≡ true
      go (returned (true, e)) q = rw (q, update_object) (quiet.update_keeps e w1 k ns n kept)
      go (returned (false, e)) q = rw (q, update_object) kept
      go panicked q = rw (q, update_object) kept

  create_object-keeps :
      (o : Obj) (w : W) (k ns n : String)
      → quiet.exists w k ns n ≡ true
      → quiet.exists (create_object client o w).1 k ns n ≡ true
  unfolding create_object
  create_object-keeps o w k ns n h = quiet.create_keeps o w k ns n h

  create_or_update-Exists :
      (cr : NvMesh) (o : Obj) (w : W)
      → o.namespace ≡ cr.meta.namespace
      → (create_or_update client (some component) cr o w).0 ≡ returned none
      → Exists (create_or_update client (some component) cr o w).1 cr o
  unfolding create_or_update
  create_or_update-Exists cr o w e h = go (get_generic_object client o cr.meta.namespace w).0 refl
    where
      kind : String
      kind = kind_of o.body

      ns : String
      ns = object_namespace kind cr.meta.namespace

      w1 : W
      w1 = (get_generic_object client o cr.meta.namespace w).1

      go :
          (r : Result Obj)
          → (get_generic_object client o cr.meta.namespace w).0 ≡ r
          → Exists (create_or_update client (some component) cr o w).1 cr o
      go (ok f) q =
          rw (q, create_or_update)
            (update_object-keeps cr o f w1 kind ns o.name (
              quiet.get_keeps kind ns o.name w kind ns o.name
                (quiet.get_found kind ns o.name w f q)))
      go (err x) q = elim (Bool-cases (is_not_found x)) [
        | inl missing ↦
            rw (q, create_or_update) (rw missing (create_object-Exists cr o w1 e (ground arith)))
        | inr other ↦ ground arith
      ]

  create_or_update-keeps :
      (cr : NvMesh) (o : Obj) (w : W) (k ns n : String)
      → quiet.exists w k ns n ≡ true
      → quiet.exists (create_or_update client (some component) cr o w).1 k ns n ≡ true
  unfolding create_or_update
  create_or_update-keeps cr o w k ns n h =
      go (get_generic_object client o cr.meta.namespace w).0 refl
    where
      w1 : W
      w1 = (get_generic_object client o cr.meta.namespace w).1

      kept : quiet.exists w1 k ns n ≡ true
      kept =
          quiet.get_keeps (kind_of o.body) (object_namespace (kind_of o.body) cr.meta.namespace)
            o.name w k ns n h

      go :
          (r : Result Obj)
          → (get_generic_object client o cr.meta.namespace w).0 ≡ r
          → quiet.exists (create_or_update client (some component) cr o w).1 k ns n ≡ true
      go (ok f) q = rw (q, create_or_update) (update_object-keeps cr o f w1 k ns n kept)
      go (err x) q = elim (Bool-cases (is_not_found x)) [
        | inl missing ↦ rw (q, create_or_update) (rw missing (create_object-keeps o w1 k ns n kept))
        | inr other ↦ rw (q, create_or_update) (rw other kept)
      ]

  pub make_sure_object_exists-Exists :
      (cr : NvMesh) (o : Obj) (w : W)
      → (make_sure_object_exists client (some component) cr o w).0 ≡ returned none
      → Exists (make_sure_object_exists client (some component) cr o w).1 cr o
  unfolding make_sure_object_exists prepared
  make_sure_object_exists-Exists cr o w h = go (prepare client (some component) cr o) refl
    where
      go :
          (r : Ran (Result Obj))
          → prepare client (some component) cr o ≡ r
          → Exists (make_sure_object_exists client (some component) cr o w).1 cr o
      go (returned (ok o')) q =
          let (kind, namespace, name) = prepare-key cr o o' q in
          rw (q, make_sure_object_exists, ← kind, ← name)
            (create_or_update-Exists cr o' w namespace (ground arith))
      go (returned (err x)) q = ground arith
      go panicked q = ground arith

  -- What was stored before is stored afterwards, whatever `makeSureObjectExists` returns.
  pub make_sure_object_exists-keeps :
      (cr : NvMesh) (o : Obj) (w : W) (k ns n : String)
      → quiet.exists w k ns n ≡ true
      → quiet.exists (make_sure_object_exists client (some component) cr o w).1 k ns n ≡ true
  unfolding make_sure_object_exists prepared
  make_sure_object_exists-keeps cr o w k ns n h = go (prepare client (some component) cr o) refl
    where
      go :
          (r : Ran (Result Obj))
          → prepare client (some component) cr o ≡ r
          → quiet.exists (make_sure_object_exists client (some component) cr o w).1 k ns n ≡ true
      go (returned (ok o')) q =
          rw (q, make_sure_object_exists) (create_or_update-keeps cr o' w k ns n h)
      go (returned (err x)) q = rw (q, make_sure_object_exists) h
      go panicked q = rw (q, make_sure_object_exists) h
