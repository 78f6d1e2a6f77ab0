-- ===== src/Api.antt =====
-- The NVMesh custom resource (pkg/api/v1/nvmesh_types.go): one record for each struct, one field
-- for each field that the operator reads or writes. A pointer or a nil-able slice whose absence
-- the code tests is an `Option`. `int32` fields are natural numbers, as the resource's schema
-- refuses values below 1 and Go's zero stands for an omitted one. Times are natural numbers.
use nvmesh_k8s_operator.Prelude.{ℕ, String, Bool, false, Option, none, List, []}
use nvmesh_k8s_operator.Prelude.Dict.{Dict}

pub record ExcludeDrives : Type 0 where
  pub serial_numbers : Option (List String)
  pub device_paths : Option (List String)

pub record CoreSpec : Type 0 where
  pub version : String
  pub image_registry : String
  pub image_version_tag : String
  pub disabled : Bool
  pub configured_nics : String
  pub tcp_only : Bool
  pub azure_optimized : Bool
  pub exclude_drives : Option ExcludeDrives
  pub module_params : String

-- corev1.PersistentVolumeClaimSpec: the four fields that `overrideVolumeClaimFields` copies. The
-- operator only tests them for nil and copies them, so their contents are text.
pub record ClaimSpec : Type 0 where
  pub storage_class : Option String
  pub selector : Option String
  pub requests : Option String
  pub limits : Option String

pub record MongoSpec : Type 0 where
  pub external : Bool
  pub address : String
  pub data_volume_claim : ClaimSpec

pub record ManagementSpec : Type 0 where
  pub version : String
  pub image_registry : String
  pub replicas : ℕ
  pub mongo_db : MongoSpec
  pub external_ips : Option (List String)
  pub no_ssl : Bool
  pub disabled : Bool
  pub backups_volume_claim : ClaimSpec
  pub disable_auto_format_drives : Bool
  pub disable_auto_evict_missing_drives : Bool

pub record CsiSpec : Type 0 where
  pub version : String
  pub controller_replicas : ℕ
  pub image_registry : String
  pub disabled : Bool

pub record FileServerSpec : Type 0 where
  pub address : String
  pub skip_check_certificate : Bool

pub record OperatorSpec : Type 0 where
  pub ignore_volume_attachment_on_delete : Bool
  pub ignore_persistent_volumes_on_delete : Bool
  pub skip_uninstall : Bool
  pub file_server : Option FileServerSpec

pub record ClusterAction : Type 0 where
  pub name : String
  pub args : Dict String

pub record DebugOptions : Type 0 where
  pub image_pull_policy_always : Bool
  pub containers_keep_running_after_failure : Bool
  pub collect_logs_jobs_run_forever : Bool
  pub debug_jobs : Bool

pub record Spec : Type 0 where
  pub core : CoreSpec
  pub management : ManagementSpec
  pub csi : CsiSpec
  pub operator : OperatorSpec
  pub debug : DebugOptions
  pub actions : List ClusterAction

-- corev1.ConditionStatus
pub data ConditionStatus : Type 0 where
  is_true is_false unknown : ConditionStatus

-- `last_transition_time` is `none` for the zero time.
pub record ClusterCondition : Type 0 where
  pub type : String
  pub status : ConditionStatus
  pub last_transition_time : Option ℕ
  pub reason : String
  pub message : String

-- A nil map of action statuses reads as an empty one.
pub record Status : Type 0 where
  pub web_ui_url : String
  pub actions_status : Dict (Dict String)
  pub conditions : List ClusterCondition

-- metav1.ObjectMeta. `deletion_timestamp` is `none` when it is zero.
pub record ObjectMeta : Type 0 where
  pub name : String
  pub namespace : String
  pub uid : String
  pub cluster_name : String
  pub generation : ℕ
  pub deletion_timestamp : Option ℕ
  pub finalizers : List String

pub record NvMesh : Type 0 where
  pub meta : ObjectMeta
  pub spec : Spec
  pub status : Status

-- ClusterConditionType
abbrev pub ready : String
ready = "Ready"

abbrev pub uninstalling : String
uninstalling = "Uninstalling"

abbrev empty_claim : ClaimSpec
empty_claim = record { storage_class = none; selector = none; requests = none; limits = none }

-- `&nvmeshv1.NVMesh{}`
abbrev pub empty_nvmesh : NvMesh
empty_nvmesh = record {
  meta = record {
    name = "";
    namespace = "";
    uid = "";
    cluster_name = "";
    generation = 0;
    deletion_timestamp = none;
    finalizers = [];
  };
  spec = record {
    core = record {
      version = "";
      image_registry = "";
      image_version_tag = "";
      disabled = false;
      configured_nics = "";
      tcp_only = false;
      azure_optimized = false;
      exclude_drives = none;
      module_params = "";
    };
    management = record {
      version = "";
      image_registry = "";
      replicas = 0;
      mongo_db = record { external = false; address = ""; data_volume_claim = empty_claim };
      external_ips = none;
      no_ssl = false;
      disabled = false;
      backups_volume_claim = empty_claim;
      disable_auto_format_drives = false;
      disable_auto_evict_missing_drives = false;
    };
    csi = record { version = ""; controller_replicas = 0; image_registry = ""; disabled = false };
    operator = record {
      ignore_volume_attachment_on_delete = false;
      ignore_persistent_volumes_on_delete = false;
      skip_uninstall = false;
      file_server = none;
    };
    debug = record {
      image_pull_policy_always = false;
      containers_keep_running_after_failure = false;
      collect_logs_jobs_run_forever = false;
      debug_jobs = false;
    };
    actions = [];
  };
  status = record { web_ui_url = ""; actions_status = []; conditions = [] };
}
