-- ===== src/Objects/Quiet.antt =====
-- What the proofs about objects assume of the API server: its documented answers, while no other
-- client creates or deletes the objects in question.
use nvmesh_k8s_operator.Prelude.{String, Bool, true, false, none, some, ◌≡◌}
use nvmesh_k8s_operator.Api.{NvMesh}
use nvmesh_k8s_operator.Kube.{
  Client, Err, returned, Result, ok, err, is_not_found, is_already_exists, Obj, kind_of,
}
use nvmesh_k8s_operator.Objects.{object_namespace, Component}

-- `exists` tells that an object is stored, `live` that it is stored and not marked for deletion,
-- both by kind, namespace (none for kinds with global names) and name.
pub record Quiet {W : Type 0} (client : Client W) : Type 0 where
  pub exists : W → String → String → String → Bool
  pub live : W → String → String → String → Bool
  pub get_found :
      (k ns n : String) (w : W) (o : Obj)
      → (client.get_object k ns n w).0 ≡ ok o
      → exists w k ns n ≡ true
  pub get_missing :
      (k ns n : String) (w : W) (e : Err)
      → (client.get_object k ns n w).0 ≡ err e
      → is_not_found e ≡ true
      → live w k ns n ≡ false
  pub get_keeps :
      (k ns n : String) (w : W) (k' ns' n' : String)
      → exists w k' ns' n' ≡ true
      → exists (client.get_object k ns n w).1 k' ns' n' ≡ true
  pub get_keeps_dead :
      (k ns n : String) (w : W) (k' ns' n' : String)
      → live w k' ns' n' ≡ false
      → live (client.get_object k ns n w).1 k' ns' n' ≡ false
  pub create_creates :
      (o : Obj) (w : W)
      → (client.create o w).0 ≡ none
      → exists
          (client.create o w).1
          (kind_of o.body)
          (object_namespace (kind_of o.body) o.namespace)
          o.name
        ≡ true
  pub create_already :
      (o : Obj) (w : W) (e : Err)
      → (client.create o w).0 ≡ some e
      → is_already_exists e ≡ true
      → exists
          (client.create o w).1
          (kind_of o.body)
          (object_namespace (kind_of o.body) o.namespace)
          o.name
        ≡ true
  pub create_keeps :
      (o : Obj) (w : W) (k ns n : String)
      → exists w k ns n ≡ true
      → exists (client.create o w).1 k ns n ≡ true
  pub update_keeps :
      (o : Obj) (w : W) (k ns n : String)
      → exists w k ns n ≡ true
      → exists (client.update o w).1 k ns n ≡ true
  pub clock_keeps :
      (w : W) (k ns n : String)
      → exists w k ns n ≡ true
      → exists (client.now_text w).1 k ns n ≡ true
  pub delete_deletes :
      (k ns n : String) (w : W)
      → (client.delete k ns n w).0 ≡ none
      → live (client.delete k ns n w).1 k (object_namespace k ns) n ≡ false
  pub delete_keeps_dead :
      (k ns n : String) (w : W) (k' ns' n' : String)
      → live w k' ns' n' ≡ false
      → live (client.delete k ns n w).1 k' ns' n' ≡ false

-- What the proofs ask of a component: it keeps the key of the objects that it initialises, and
-- deletes nothing while it compares.
pub record IsWellBehaved {W : Type 0} {client : Client W} (quiet : Quiet client)
    (component : Component W) : Type 0 where
  pub init_keeps_key :
      (cr : NvMesh) (o o' : Obj)
      → component.init_object cr o ≡ returned (ok o')
      → (kind_of o'.body ≡ kind_of o.body) × (o'.namespace ≡ o.namespace) × (o'.name ≡ o.name)
  pub compare_keeps :
      (cr : NvMesh) (expected found : Obj) (w : W) (k ns n : String)
      → quiet.exists w k ns n ≡ true
      → quiet.exists (component.should_update_object cr expected found w).1 k ns n ≡ true

-- The resource files do not change, and reading them deletes nothing.
pub record FixedFiles {W : Type 0} {client : Client W} (quiet : Quiet client) : Type 0 where
  pub contents : String → Result String
  pub read_same : (f : String) (w : W) → (client.read_file f w).0 ≡ contents f
  pub read_keeps :
      (f : String) (w : W) (k ns n : String)
      → quiet.exists w k ns n ≡ true
      → quiet.exists (client.read_file f w).1 k ns n ≡ true
  pub walk_keeps :
      (root : String) (w : W) (k ns n : String)
      → quiet.exists w k ns n ≡ true
      → quiet.exists (client.walk root w).1 k ns n ≡ true
