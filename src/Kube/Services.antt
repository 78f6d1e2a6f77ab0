-- ===== src/Kube/Services.antt =====
-- The outside services as an interface over the type `W` of the world's states: the API client of
-- controller-runtime and its caches, the resource files and their decoder, the MongoDB driver, the
-- retry helper of client-go, and the clock. Every call may change the world, in which other
-- clients act too.
use nvmesh_k8s_operator.Prelude.{ℕ, String, Bool, Option, List}
use nvmesh_k8s_operator.Api.{NvMesh}
use nvmesh_k8s_operator.Kube.Objects.{Obj, Job, Pod, Node, VolumeAttachment, PersistentVolume}
use nvmesh_k8s_operator.Kube.Actions.{Err, Result, Call}

pub record Client (W : Type 0) : Type 0 where
  -- r.Client.Get by kind, namespace and name
  pub get_object : (kind namespace name : String) → Call W (Result Obj)
  pub create : Obj → Call W (Option Err)
  pub update : Obj → Call W (Option Err)
  pub delete : (kind namespace name : String) → Call W (Option Err)
  pub get_job : (namespace name : String) → Call W (Result Job)
  -- List of pods by the label `key` with one of the values
  pub list_pods : (key : String) → (values : List String) → Call W (Result (List Pod))
  -- List of the pods of a namespace
  pub list_all_pods : (namespace : String) → Call W (Result (List Pod))
  pub list_nodes : (key value : String) → Call W (Result (List Node))
  pub list_volume_attachments : Call W (Result (List VolumeAttachment))
  pub list_persistent_volumes : Call W (Result (List PersistentVolume))
  -- labels.NewRequirement for the operator Exists: the label, or a refusal
  pub exists_requirement : (key : String) → (values : List String) → Result String
  -- List of the claims that meet a requirement, as objects
  pub list_claims : (label : String) → Call W (Result (List Obj))
  pub get_nvmesh : (namespace name : String) → Call W (Result NvMesh)
  -- Update and Status().Update write the answer into the resource they are given.
  pub update_nvmesh : NvMesh → Call W (Option Err × NvMesh)
  pub update_nvmesh_status : NvMesh → Call W (Option Err × NvMesh)
  -- ioutil.ReadFile
  pub read_file : (name : String) → Call W (Result String)
  -- ioutil.ReadDir: names, and whether each is a directory
  pub read_dir : (dir : String) → Call W (Result (List (String × Bool)))
  -- filepath.Walk: the visited paths, and whether each is a directory; `none` for a nil FileInfo
  pub walk : (root : String) → Call W (List (String × Option Bool))
  -- runtime.Decoder.Decode: an object, nil or not, and an error, nil or not
  pub decode : (document : String) → Option Obj × Option Err
  -- EventManager.Warning
  pub record_warning : (reason text : String) → Call W (Unit {0})
  pub now : Call W ℕ
  -- time.Now().UTC().Format(time.RFC3339)
  pub now_text : Call W String
