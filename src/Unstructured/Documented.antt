-- ===== src/Unstructured/Documented.antt =====
-- What the proofs about unstructured objects assume: the documented answers of the API server, while
-- no other client creates or deletes the objects, and resource files that do not change.
use nvmesh_k8s_operator.Prelude.{String, Bool, true, false, none, ◌≡◌}
use nvmesh_k8s_operator.Kube.{Client, Err, Result, ok, err, is_not_found}
use nvmesh_k8s_operator.Unstructured.Types.{GroupVersionKind, Unstructured, Mapping, Dynamic}

-- A test on the world for every object, by its mapping, namespace and name.
abbrev pub OnObjects : (W : Type 0) → Type 0
OnObjects W = W → Mapping → String → String → Bool

abbrev pub IsUnchanged : {W : Type 0} → OnObjects W → W → W → Type 0
IsUnchanged test w w' = (m : Mapping) (ns n : String) → test w' m ns n ≡ test w m ns n

-- The calls that read leave a test on objects as it was.
pub record IsLeft {W : Type 0} (client : Client W) (dynamic : Dynamic W) (test : OnObjects W)
    : Type 0 where
  pub read_file : (f : String) (w : W) → IsUnchanged test w (client.read_file f w).1
  pub walk : (dir : String) (w : W) → IsUnchanged test w (client.walk dir w).1
  pub new_discovery_client : (w : W) → IsUnchanged test w (dynamic.new_discovery_client w).1
  pub rest_mapping :
      (gvk : GroupVersionKind) (w : W) → IsUnchanged test w (dynamic.rest_mapping gvk w).1
  pub watch :
      (m : Mapping) (ns field_selector : String) (w : W)
      → IsUnchanged test w (dynamic.watch m ns field_selector w).1
  pub get : (m : Mapping) (ns n : String) (w : W) → IsUnchanged test w (dynamic.get m ns n w).1

-- `exists` tells that an object is stored, `live` that it is stored and not marked for deletion.
pub record Documented {W : Type 0} (client : Client W) (dynamic : Dynamic W) : Type 0 where
  pub exists : OnObjects W
  pub live : OnObjects W
  pub contents : String → Result String
  pub mapping : GroupVersionKind → Result Mapping
  pub read_same : (f : String) (w : W) → (client.read_file f w).0 ≡ contents f
  pub discovers : (w : W) → (dynamic.new_discovery_client w).0 ≡ none
  pub maps : (gvk : GroupVersionKind) (w : W) → (dynamic.rest_mapping gvk w).0 ≡ mapping gvk
  pub get_found :
      (m : Mapping) (ns n : String) (w : W) (o : Unstructured)
      → (dynamic.get m ns n w).0 ≡ ok o
      → exists (dynamic.get m ns n w).1 m ns n ≡ true
  pub get_missing :
      (m : Mapping) (ns n : String) (w : W) (e : Err)
      → (dynamic.get m ns n w).0 ≡ err e
      → is_not_found e ≡ true
      → live (dynamic.get m ns n w).1 m ns n ≡ false
  pub create_creates :
      (m : Mapping) (ns : String) (o : Unstructured) (w : W)
      → (dynamic.create m ns o w).0 ≡ none
      → exists (dynamic.create m ns o w).1 m ns o.name ≡ true
  pub create_keeps :
      (m : Mapping) (ns : String) (o : Unstructured) (w : W) (m' : Mapping) (ns' n' : String)
      → exists w m' ns' n' ≡ true
      → exists (dynamic.create m ns o w).1 m' ns' n' ≡ true
  pub delete_deletes :
      (m : Mapping) (ns n : String) (w : W)
      → (dynamic.delete m ns n w).0 ≡ none
      → live (dynamic.delete m ns n w).1 m ns n ≡ false
  pub delete_keeps_dead :
      (m : Mapping) (ns n : String) (w : W) (m' : Mapping) (ns' n' : String)
      → live w m' ns' n' ≡ false
      → live (dynamic.delete m ns n w).1 m' ns' n' ≡ false
  pub exists_read : IsLeft client dynamic exists
  pub live_read : IsLeft client dynamic live

module _ {W : Type 0} {client : Client W} {dynamic : Dynamic W}
    (doc : Documented client dynamic) where
  -- The test that a run is about, and what it comes to: objects are created until they exist, and
  -- deleted until they are not live.
  abbrev pub tracked : (create : Bool) → OnObjects W
  tracked true = doc.exists
  tracked false = doc.live

  abbrev pub Reached : (create : Bool) → W → Mapping → (namespace name : String) → Type 0
  Reached create w m ns n = tracked create w m ns n ≡ create

  pub tracked-IsLeft : (create : Bool) → IsLeft client dynamic (tracked create)
  tracked-IsLeft true = doc.exists_read
  tracked-IsLeft false = doc.live_read
