-- ===== src/Kube/Objects.antt =====
-- The Kubernetes objects that the operator builds, compares and deletes: the fields that its code
-- reads or writes, and one case of `Body` for each Go type that the code switches on.
use nvmesh_k8s_operator.Prelude.{ℕ, String, Bool, Option, List}
use nvmesh_k8s_operator.Prelude.Dict.{Dict}

-- corev1.EnvVar: a literal value, or one taken from a key of a secret
pub data EnvSource : Type 0 where
  literal : String → EnvSource
  secret_key : (secret key : String) → EnvSource

pub record EnvVar : Type 0 where
  pub name : String
  pub value : EnvSource

pub record VolumeMount : Type 0 where
  pub name : String
  pub mount_path : String

pub data PullPolicy : Type 0 where
  always if_not_present unset : PullPolicy

pub record Container : Type 0 where
  pub name : String
  pub image : String
  pub image_pull_policy : PullPolicy
  pub command : List String
  pub args : List String
  pub env : List EnvVar
  pub volume_mounts : List VolumeMount
  pub privileged : Bool

pub data VolumeSource : Type 0 where
  host_path : String → VolumeSource
  config_map_source : String → VolumeSource

pub record Volume : Type 0 where
  pub name : String
  pub source : VolumeSource

pub record PodSpec : Type 0 where
  pub service_account_name : String
  pub image_pull_secrets : List String
  pub restart_on_failure : Bool
  pub containers : List Container
  pub volumes : List Volume
  pub node_name : String
  pub node_selector : Dict String
  pub host_network : Bool
  pub host_pid : Bool
  pub termination_grace_seconds : Option ℕ

-- batchv1.JobSpec with the pod template's labels. `selector` is `none` where the code sets none.
pub record JobSpec : Type 0 where
  pub backoff_limit : ℕ
  pub completions : ℕ
  pub selector : Option (Dict String)
  pub template_labels : Dict String
  pub template : PodSpec

-- batchv1.JobStatus; a condition is its type and its message
pub record JobStatus : Type 0 where
  pub failed : ℕ
  pub succeeded : ℕ
  pub active : ℕ
  pub conditions : List (String × String)

-- A Job as the API server returns it. The server defaults an omitted `completions`, so the pointer
-- that the code follows is never nil.
pub record Job : Type 0 where
  pub name : String
  pub spec : JobSpec
  pub status : JobStatus

pub record Subject : Type 0 where
  pub kind : String
  pub name : String
  pub namespace : String

-- A claim template of a StatefulSet.
pub record Claim : Type 0 where
  pub labels : Dict String
  pub storage_class : Option String
  pub selector : Option String
  pub requests : Option String
  pub limits : Option String

-- appsv1.StatefulSet and appsv1.DaemonSet, which has neither replicas nor claims; the annotations are
-- those of the pod template
pub record Workload : Type 0 where
  pub replicas : Option ℕ
  pub annotations : Dict String
  pub template : PodSpec
  pub claims : List Claim

pub record ServiceSpec : Type 0 where
  pub cluster_ip : String
  pub external_ips : Option (List String)

pub data Body : Type 0 where
  stateful_set daemon_set : Workload → Body
  config_map : Dict String → Body
  service : ServiceSpec → Body
  role_binding cluster_role_binding : List Subject → Body
  service_account : (pull_secrets : List String) → Body
  job : JobSpec → Body
  other : (kind content : String) → Body

pub record Obj : Type 0 where
  pub name : String
  pub namespace : String
  pub labels : Dict String
  pub owner : Option String
  pub body : Body

-- GetObjectKind().GroupVersionKind().Kind
unfoldable pub kind_of : Body → String
kind_of (stateful_set _) = "StatefulSet"
kind_of (daemon_set _) = "DaemonSet"
kind_of (config_map _) = "ConfigMap"
kind_of (service _) = "Service"
kind_of (role_binding _) = "RoleBinding"
kind_of (cluster_role_binding _) = "ClusterRoleBinding"
kind_of (service_account _) = "ServiceAccount"
kind_of (job _) = "Job"
kind_of (other kind _) = kind

pub record Pod : Type 0 where
  pub name : String
  pub namespace : String

pub record Node : Type 0 where
  pub name : String
  pub labels : Dict String

-- storagev1.VolumeAttachment; the volume is `none` where the source is inline
pub record VolumeAttachment : Type 0 where
  pub attached : Bool
  pub attacher : String
  pub persistent_volume : Option String
  pub node_name : String

-- corev1.PersistentVolume; `csi_driver` is `none` for a volume of another kind
pub record PersistentVolume : Type 0 where
  pub name : String
  pub csi_driver : Option String
