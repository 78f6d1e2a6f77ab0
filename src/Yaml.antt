-- ===== src/Yaml.antt =====
-- pkg/yamlutils/yamlutils.go: a resource file is read, split into documents and decoded. The file
-- system and the decoder are the client's.
pub mod Laws
use nvmesh_k8s_operator.Prelude.{ℕ, ◌+◌, String, Option, none, some, List, [], ◌∷◌, concat, split}
use nvmesh_k8s_operator.Kube.{
  Client, Act, pure, panic, call, ◌>>=◌, Err, Result, ok, err, wrap_error, Obj,
}

-- YamlDocumentParseError: the document, its index in the file, and the decoder's error
pub record ParseFailure : Type 0 where
  pub content : String
  pub index : ℕ
  pub cause : Err

-- The error of `YamlFileToObjects`: documents that did not parse (YamlFileParseError), or a file
-- that could not be read.
pub data YamlError : Type 0 where
  parse_error : List ParseFailure → YamlError
  read_error : Err → YamlError

-- `if len(failedDocs) > 0` at the end of `yamlStringToObjects`
unfoldable pub file_error : List ParseFailure → Option YamlError
file_error [] = none
file_error (f ∷ fs) = some (parse_error (f ∷ fs))

-- What one document adds to `objs` and `failedDocs`.
unfoldable pub collect :
    String → ℕ → Obj × Option Err → List Obj × List ParseFailure → List Obj × List ParseFailure
collect doc i (o, none) (objs, failed) = (o ∷ objs, failed)
collect doc i (o, some e) (objs, failed) =
    (objs, record { content = doc; index = i; cause = e } ∷ failed)

module _ {W : Type 0} (client : Client W) where
  -- The end of `singleYamlDocStringToObject`: the type assertion panics on a nil object, and it is
  -- made whether or not there is an error.
  unfoldable pub assert_object : Option Obj × Option Err → Act W (Obj × Option Err)
  assert_object (none, e) = panic
  assert_object (some o, e) = pure (o, wrap_error e "Error while decoding YAML object")

  unfoldable pub single_yaml_doc_string_to_object : String → Act W (Obj × Option Err)
  unfolding assert_object
  single_yaml_doc_string_to_object yaml = assert_object (client.decode yaml)

  -- the loop over the documents, from the index `i`
  unfoldable pub decode_docs : ℕ → List String → Act W (List Obj × List ParseFailure)
  unfolding single_yaml_doc_string_to_object collect
  decode_docs i [] = pure ([], [])
  decode_docs i (doc ∷ docs) = do
    decoded ← single_yaml_doc_string_to_object doc
    rest ← decode_docs (i + 1) docs
    pure (collect doc i decoded rest)

  unfoldable pub yaml_string_to_objects : String → Act W (List Obj × Option YamlError)
  unfolding decode_docs file_error
  yaml_string_to_objects yaml = do
    (objs, failed) ← decode_docs 0 (split yaml "\n---\n")
    pure (objs, file_error failed)

  unfoldable pub yaml_file_to_string : String → Act W (Result String)
  yaml_file_to_string filename = do
    r ← call (client.read_file filename)
    elim r [
      | ok s ↦ pure (ok s)
      | err e ↦ pure (
          err (
            Err.wrap e
              (concat ("Error while trying to read from YAML file. filename: " ∷ filename ∷ []))))
    ]

  unfoldable pub yaml_file_to_objects : String → Act W (List Obj × Option YamlError)
  unfolding yaml_file_to_string yaml_string_to_objects
  yaml_file_to_objects filename = do
    r ← yaml_file_to_string filename
    elim r [ err e ↦ pure ([], some (read_error e)) | ok yaml ↦ yaml_string_to_objects yaml ]
