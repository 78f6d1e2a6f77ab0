-- ===== src/Objects.antt =====
-- `reconcileObject` and its parts in pkg/controllers/ctrl_utils.go: an object of a component is
-- created, updated or removed. Logging is left out. `SetControllerReference` cannot change what
-- follows, as its error is only logged: the owner is set.
pub mod Parts
pub mod Quiet
pub mod Exists
pub mod Removed
pub mod Idle
use nvmesh_k8s_operator.Prelude.{
  String, Bool, true, false, Option, none, some, List, [], ◌∷◌, ◌==◌, ◌&&◌, if◌then◌else◌,
}
use nvmesh_k8s_operator.Prelude.Dict.{Dict, put}
use nvmesh_k8s_operator.Api.{NvMesh}
use nvmesh_k8s_operator.Slices.{string_in_slice}
use nvmesh_k8s_operator.Jobs.{get_operator_labels}
use nvmesh_k8s_operator.Kube.{
  Client, Act, Ran, returned, panicked, Call, pure, panic, call, ◌>>=◌, Err, Result, ok, err,
  unless, is_not_found, is_already_exists, is_no_kind_match, Obj, kind_of, CtrlResult, Outcome,
}

-- GloballyNamedKinds of nvmesh_controller.go
abbrev pub globally_named_kinds : List String
globally_named_kinds =
    "CSIDriver" ∷ "ClusterRole" ∷ "ClusterRoleBinding" ∷ "StorageClass" ∷ "CustomResourceDefinition"
    ∷ "SecurityContextConstraints" ∷ []

-- The namespace under which `getGenericObject` looks up a kind.
unfoldable pub object_namespace : (kind namespace : String) → String
object_namespace kind namespace =
    if string_in_slice kind globally_named_kinds then "" else namespace

-- NVMeshComponent of nvmesh_controller.go over the world's states. `init_object` returns the changed
-- object, or panics. `should_update_object` may call outside services, and changes the expected object before
-- it is written.
pub record Component (W : Type 0) : Type 0 where
  pub init_object : NvMesh → Obj → Ran (Result Obj)
  pub should_update_object : NvMesh → (expected found : Obj) → Act W (Bool × Obj)

abbrev put_all : Dict String → Dict String → Dict String
put_all labels [] = labels
put_all labels ((k, v) ∷ more) = put_all (put labels k v) more

-- addOperatorLabels
unfoldable pub add_operator_labels : NvMesh → Obj → Obj
add_operator_labels cr o = record o { labels = put_all o.labels (get_operator_labels cr) }

-- `(*component).InitObject` where there is a component
abbrev pub init_with : {W : Type 0} → Option (Component W) → NvMesh → Obj → Ran (Result Obj)
init_with none cr o = returned (ok o)
init_with (some component) cr o = component.init_object cr o

abbrev pub set_controller_reference : NvMesh → Obj → Obj
set_controller_reference cr o = record o { owner = some cr.meta.name }

abbrev pub own : NvMesh → Ran (Result Obj) → Ran (Result Obj)
own cr (returned (ok o)) = returned (ok (set_controller_reference cr o))
own cr (returned (err e)) = returned (err e)
own cr panicked = panicked

module _ {W : Type 0} (client : Client W) where
  unfoldable pub get_generic_object : Obj → (namespace : String) → Call W (Result Obj)
  get_generic_object o namespace =
      client.get_object (kind_of o.body) (object_namespace (kind_of o.body) namespace) o.name

  unfoldable pub create_object : Obj → Act W (Option Err)
  create_object o = do e ← call (client.create o); pure (unless is_already_exists e)

  unfoldable pub update_object :
      Option (Component W) → NvMesh → (o found : Obj) → Act W (Option Err)
  update_object none cr o found = pure none
  update_object (some component) cr o found = do
    (wanted, expected) ← component.should_update_object cr o found
    if wanted then call (client.update expected) else pure none

  unfoldable pub create_or_update : Option (Component W) → NvMesh → Obj → Act W (Option Err)
  unfolding get_generic_object create_object update_object
  create_or_update component cr o = do
    found ← call (get_generic_object o cr.meta.namespace)
    elim found [
      | err e ↦ if is_not_found e then create_object o else pure (some e)
      | ok f ↦ update_object component cr o f
    ]

  -- What `makeSureObjectExists` looks up and creates: namespace, labels, the component's
  -- initialisation and the owner.
  unfoldable pub prepare : Option (Component W) → NvMesh → Obj → Ran (Result Obj)
  unfolding add_operator_labels
  prepare component cr o =
      own cr (
        init_with component cr
          (add_operator_labels cr (record o { namespace = cr.meta.namespace })))

  unfoldable pub prepared : Option (Component W) → NvMesh → Ran (Result Obj) → Act W (Option Err)
  unfolding create_or_update
  prepared component cr (returned (ok o)) = create_or_update component cr o
  prepared component cr (returned (err e)) = pure (some e)
  prepared component cr panicked = panic

  unfoldable pub make_sure_object_exists : Option (Component W) → NvMesh → Obj → Act W (Option Err)
  unfolding prepare prepared
  make_sure_object_exists component cr o = prepared component cr (prepare component cr o)

  unfoldable pub make_sure_object_removed : NvMesh → Obj → Act W (Option Err)
  unfolding get_generic_object
  make_sure_object_removed cr o = do
    found ← call (get_generic_object o cr.meta.namespace)
    elim found [
      | err e ↦
          if is_not_found e
          then pure none
          else if is_no_kind_match e && kind_of o.body == "SecurityContextConstraints"
          then pure none
          else pure (some e)
      | ok _ ↦ call (client.delete (kind_of o.body) cr.meta.namespace o.name)
    ]

  unfoldable pub reconcile_object :
      NvMesh → Obj → Component W → (remove : Bool) → Act W (Option Err)
  unfolding make_sure_object_exists make_sure_object_removed
  reconcile_object cr o component false = make_sure_object_exists (some component) cr o
  reconcile_object cr o component true = make_sure_object_removed cr o
