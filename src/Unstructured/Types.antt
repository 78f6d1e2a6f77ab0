-- ===== src/Unstructured/Types.antt =====
-- What pkg/controllers/ctrl_utils.go uses of the unstructured objects of apimachinery, and the outside
-- services that it calls for them: discovery, the dynamic client and the decoder.
use nvmesh_k8s_operator.Prelude.{ℕ, String, Bool, Option, List}
use nvmesh_k8s_operator.Kube.{Err, Result, Call}

-- schema.GroupVersionKind
pub record GroupVersionKind : Type 0 where
  pub group : String
  pub version : String
  pub kind : String

-- metav1.OwnerReference
pub record OwnerReference : Type 0 where
  pub api_version : String
  pub kind : String
  pub name : String
  pub uid : String
  pub block_owner_deletion : Option Bool
  pub controller : Option Bool

-- unstructured.Unstructured: its name, its owners, and all else as text
pub record Unstructured : Type 0 where
  pub name : String
  pub owner_references : List OwnerReference
  pub content : String

-- meta.RESTMapping, as far as it is used: the resource, as `%s` prints it
abbrev pub Mapping : Type 0
Mapping = String

pub record Dynamic (W : Type 0) : Type 0 where
  -- schema.ParseGroupVersion: the group, or a refusal
  pub parse_group : (api_version : String) → Result String
  -- GroupVersion().String()
  pub group_version : (group version : String) → String
  -- The decoder of unstructured objects
  pub decode : (yaml : String) → Result (Unstructured × GroupVersionKind)
  -- json.Encoder.Encode of an unstructured object, with the indentation
  pub encode : Unstructured → String
  -- discovery.NewDiscoveryClientForConfig
  pub new_discovery_client : Call W (Option Err)
  -- RESTMapping of the deferred mapper
  pub rest_mapping : GroupVersionKind → Call W (Result Mapping)
  -- The dynamic client for a resource and a namespace
  pub watch : Mapping → (namespace field_selector : String) → Call W (Result ℕ)
  pub get : Mapping → (namespace name : String) → Call W (Result Unstructured)
  pub create : Mapping → (namespace : String) → Unstructured → Call W (Option Err)
  pub delete : Mapping → (namespace name : String) → Call W (Option Err)
  -- watch.Interface.Stop, by the watcher
  pub stop : ℕ → Call W (Unit {0})
