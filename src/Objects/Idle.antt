-- ===== src/Objects/Idle.antt =====
-- `makeSureObjectExists` in a cluster that is as the resource wants it: nothing is written.
use nvmesh_k8s_operator.Prelude.{Bool, false, none, some, ◌≡◌, refl, arith}
use nvmesh_k8s_operator.Api.{NvMesh}
use nvmesh_k8s_operator.Kube.{Client, Ran, returned, panicked, Result, ok, err, Obj, Body}
use nvmesh_k8s_operator.Objects.Parts.{with_body}
use nvmesh_k8s_operator.Objects.{
  Component, add_operator_labels, own, get_generic_object, update_object, create_or_update, prepare,
  prepared, make_sure_object_exists,
}

-- The answer of a comparison: no update, and no call was made.
abbrev pub WantsNoUpdate : {W : Type 0} → W → Ran (Bool × Obj) × W → Type 0
WantsNoUpdate w (panicked, w') = ⊥
WantsNoUpdate w (returned (b, _), w') = (b ≡ false) × (w' ≡ w)

-- The same of a comparison that makes no call.
abbrev pub SaysNo : Ran Bool → Type 0
SaysNo panicked = ⊥
SaysNo (returned b) = b ≡ false

-- The same of a comparison that also gives the expected value as it is then.
abbrev pub SaysNoFirst : {A : Type 0} → Ran (Bool × A) → Type 0
SaysNoFirst panicked = ⊥
SaysNoFirst (returned (b, _)) = b ≡ false

-- A component wants no update of an object whose body is the one that it has made, of a body with a
-- property.
pub record IsSettled {W : Type 0} (P : Body → Type 0) (component : Component W) : Type 0 where
  pub settled :
      (cr : NvMesh) (o e expected found : Obj) (w : W)
      → P o.body
      → component.init_object cr o ≡ returned (ok e)
      → expected.body ≡ e.body
      → found.body ≡ e.body
      → found.name ≡ o.name
      → WantsNoUpdate w (component.should_update_object cr expected found w)

-- What an initialised object has for a body.
pub with_body-body :
    (o e : Obj) (r : Ran (Result Body)) → with_body o r ≡ returned (ok e) → r ≡ returned (ok e.body)
with_body-body o e panicked h = ground arith
with_body-body o e (returned (err x)) h = ground arith
with_body-body o e (returned (ok b)) h = ground arith

module _ {W : Type 0} (client : Client W) {P : Body → Type 0} (component : Component W)
    (law : IsSettled P component) (cr : NvMesh) (o e found : Obj) (w : W) where
  module _ (usual : P o.body) (made : prepare client (some component) cr o ≡ returned (ok e))
      (same_body : found.body ≡ e.body) (same_name : found.name ≡ o.name) where
    prepared-settled : (w : W) → WantsNoUpdate w (component.should_update_object cr e found w)
    unfolding prepare
    prepared-settled w = go (component.init_object cr labelled) refl made
      where
        labelled : Obj
        labelled = add_operator_labels cr (record o { namespace = cr.meta.namespace })

        go :
            (r : Ran (Result Obj))
            → component.init_object cr labelled ≡ r
            → own cr r ≡ returned (ok e)
            → WantsNoUpdate w (component.should_update_object cr e found w)
        go (returned (ok e')) q h =
            law.settled cr labelled e' e found w usual q (ground arith) (ground arith) same_name
        go (returned (err x)) q h = ground arith
        go panicked q h = ground arith

    update_object-idle :
        (w : W) → update_object client (some component) cr e found w ≡ (returned none, w)
    unfolding update_object
    update_object-idle w =
        go (component.should_update_object cr e found w) refl (prepared-settled w)
      where
        go :
            (r : Ran (Bool × Obj) × W)
            → component.should_update_object cr e found w ≡ r
            → WantsNoUpdate w r
            → update_object client (some component) cr e found w ≡ (returned none, w)
        go (panicked, w') q h = absurd h
        go (returned (b, x), w') q (unwanted, same) =
            rw (q, update_object) (rw (unwanted, same) refl)

    -- Where the API server answers with the object that `makeSureObjectExists` would create, nothing
    -- is created and nothing is updated: the lookup is the only call, and there is no error.
    pub make_sure_object_exists-idle :
        (get_generic_object client e cr.meta.namespace w).0 ≡ ok found
        → make_sure_object_exists client (some component) cr o w
          ≡ (returned none, (get_generic_object client e cr.meta.namespace w).1)
    unfolding make_sure_object_exists prepared create_or_update
    make_sure_object_exists-idle answered =
        rw (made, prepared, create_or_update) (rw answered (update_object-idle _))
