-- ===== src/Yaml/Laws.antt =====
-- What `yamlStringToObjects` makes of the documents of a file.
use nvmesh_k8s_operator.Prelude.{
  ℕ, ◌+◌, String, Option, none, some, List, [], ◌∷◌, split, ◌≡◌, refl, arith, Bool, true, false,
  not, any, is_some,
}
use nvmesh_k8s_operator.Kube.{Client, Ran, returned, panicked, Err, Obj}
use nvmesh_k8s_operator.Yaml.{ParseFailure, YamlError, decode_docs, yaml_string_to_objects}

module _ {W : Type 0} (client : Client W) where
  -- The objects of the documents that decode without an error, in order.
  abbrev pub sound : Option Obj × Option Err → List Obj → List Obj
  sound (some o, none) objs = o ∷ objs
  sound _ objs = objs

  abbrev pub sound_objects : List String → List Obj
  sound_objects [] = []
  sound_objects (doc ∷ docs) = sound (client.decode doc) (sound_objects docs)

  -- A document for which the decoder returns a nil object, and one with an error.
  abbrev pub is_nil : String → Bool
  is_nil doc = not (is_some (client.decode doc).0)

  abbrev pub is_bad : String → Bool
  is_bad doc = is_some (client.decode doc).1

  abbrev bad_count : List ParseFailure → Bool
  bad_count [] = false
  bad_count (_ ∷ _) = true

  -- The loop stops with a panic or returns the sound objects, and a failure for each bad document.
  abbrev Decoded : List String → Ran (List Obj × List ParseFailure) → Type 0
  Decoded docs panicked = any is_nil docs ≡ true
  Decoded docs (returned (objs, failed)) =
      (any is_nil docs ≡ false) × (objs ≡ sound_objects docs) × (bad_count failed ≡ any is_bad docs)

  decode_docs-Decoded :
      (i : ℕ) (docs : List String) (w : W)
      → Decoded docs (decode_docs client i docs w).0 × ((decode_docs client i docs w).1 ≡ w)
  unfolding decode_docs
  decode_docs-Decoded i [] w = ((refl, refl, refl), refl)
  decode_docs-Decoded i (doc ∷ docs) w =
      let (d, same) = decode_docs-Decoded (i + 1) docs w in
      step (client.decode doc) refl (decode_docs client (i + 1) docs w) refl d same
    where
      step :
          (x : Option Obj × Option Err)
          → client.decode doc ≡ x
          → (r : Ran (List Obj × List ParseFailure) × W) → decode_docs client (i + 1) docs w ≡ r
          → Decoded docs r.0
          → r.1 ≡ w
          → Decoded (doc ∷ docs) (decode_docs client i (doc ∷ docs) w).0
            × ((decode_docs client i (doc ∷ docs) w).1 ≡ w)
      step (none, e) q r p d same = ground arith
      step (some o, e) q (panicked, w') p d same = ground arith
      step (some o, none) q (returned (objs, failed), w') p d same = ground arith
      step (some o, some x) q (returned (objs, failed), w') p d same = ground arith

  -- The three ways in which a file's documents can turn out.
  abbrev pub Parsed : List String → Ran (List Obj × Option YamlError) → Type 0
  Parsed docs panicked = any is_nil docs ≡ true
  Parsed docs (returned (objs, e)) =
      (any is_nil docs ≡ false) × (objs ≡ sound_objects docs) × (is_some e ≡ any is_bad docs)

  -- `yamlStringToObjects` panics exactly when the decoder returns a nil object for some document.
  -- Otherwise it returns the objects of the documents without an error, in order, and an error exactly
  -- when some document had one. It changes nothing outside.
  pub yaml_string_to_objects-Parsed :
      (yaml : String) (w : W)
      → Parsed (split yaml "\n---\n") (yaml_string_to_objects client yaml w).0
        × ((yaml_string_to_objects client yaml w).1 ≡ w)
  unfolding yaml_string_to_objects
  yaml_string_to_objects-Parsed yaml w =
      let (d, same) = decode_docs-Decoded 0 (split yaml "\n---\n") w in
      finish (decode_docs client 0 (split yaml "\n---\n") w) refl d same
    where
      finish :
          (r : Ran (List Obj × List ParseFailure) × W)
          → decode_docs client 0 (split yaml "\n---\n") w ≡ r
          → Decoded (split yaml "\n---\n") r.0
          → r.1 ≡ w
          → Parsed (split yaml "\n---\n") (yaml_string_to_objects client yaml w).0
            × ((yaml_string_to_objects client yaml w).1 ≡ w)
      finish (panicked, w') p d same = rw (p, yaml_string_to_objects) (d, same)
      finish (returned (objs, []), w') p d same = rw (p, yaml_string_to_objects) (d, same)
      finish (returned (objs, f ∷ fs), w') p d same = rw (p, yaml_string_to_objects) (d, same)
