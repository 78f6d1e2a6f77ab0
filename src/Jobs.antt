-- ===== src/Jobs.antt =====
-- pkg/controllers/jobs.go: the Kubernetes Jobs that the operator builds, waits for and deletes.
-- Logging is left out; the calls that only feed the log (`monitorJob`) are made.
pub mod Mounts
pub mod Wait
pub mod Delete
use nvmesh_k8s_operator.Prelude.{
  ℕ, String, Bool, true, false, Option, none, some, List, [], ◌∷◌, ◌++◌, ◌||◌, concat, ltb, nat_eq,
  if◌then◌else◌, ◌==◌, replace_all, to_lower, drop_first, modify_at,
}
use nvmesh_k8s_operator.Prelude.Dict.{Dict, put}
use nvmesh_k8s_operator.Api.{NvMesh}
use nvmesh_k8s_operator.Kube.{
  Client, Act, Ran, returned, Call, pure, call, panic, ◌>>=◌, ◌>>◌, or_return, wrap_error, unless,
  Err, message, Result, ok, err, is_not_found, CtrlResult, Outcome, do_not_requeue, requeue_in, Job,
  JobSpec, Pod, PodSpec, Container, Volume, VolumeMount, host_path, config_map_source, Obj, Body,
  PullPolicy, always, if_not_present,
}

abbrev pub registry_cred_secret_name : String
registry_cred_secret_name = "excelero-registry-cred"

abbrev pub cluster_name_label_key : String
cluster_name_label_key = "nvmesh.excelero.com/cluster-name"

abbrev pub cluster_service_account_name : String
cluster_service_account_name = "nvmesh-cluster"

-- getOperatorLabels of ctrl_utils.go
unfoldable pub get_operator_labels : NvMesh → Dict String
get_operator_labels cr =
    ("app.kubernetes.io/managed-by", "nvmesh-operator")
    ∷ (cluster_name_label_key, cr.meta.name)
    ∷ []

-- getImagePullPolicy of ctrl_utils.go
unfoldable pub get_image_pull_policy : NvMesh → PullPolicy
get_image_pull_policy cr = if cr.spec.debug.image_pull_policy_always then always else if_not_present

-- getCoreFullImageName of nvmesh_controller.go
unfoldable pub get_core_full_image_name : NvMesh → String → String
get_core_full_image_name cr image =
    concat (cr.spec.core.image_registry ∷ "/" ∷ image ∷ ":" ∷ cr.spec.core.image_version_tag ∷ [])

unfoldable pub match_node : String → Dict String
match_node node = ("kubernetes.io/hostname", node) ∷ []

abbrev pub new_container : String → String → PullPolicy → Container
new_container name image policy = record {
  name = name;
  image = image;
  image_pull_policy = policy;
  command = [];
  args = [];
  env = [];
  volume_mounts = [];
  privileged = false;
}

-- The job's specification as `getNewJob` fills it in.
unfoldable pub get_new_job : NvMesh → String → String → JobSpec
unfolding get_operator_labels get_image_pull_policy
get_new_job cr job_name image = record {
  backoff_limit = 3;
  completions = 1;
  selector = none;
  template_labels = put (get_operator_labels cr) "job-name" job_name;
  template = record {
    service_account_name = cluster_service_account_name;
    image_pull_secrets = registry_cred_secret_name ∷ [];
    restart_on_failure = true;
    containers = new_container job_name image (get_image_pull_policy cr) ∷ [];
    volumes = [];
    node_name = "";
    node_selector = [];
    host_network = false;
    host_pid = false;
    termination_grace_seconds = none;
  };
}

-- The object that is created from a job's specification.
abbrev pub job_object : NvMesh → String → JobSpec → Obj
job_object cr job_name spec = record {
  name = job_name;
  namespace = cr.meta.namespace;
  labels = put (get_operator_labels cr) "job-name" job_name;
  owner = none;
  body = Body.job spec;
}

abbrev pub add_mount : VolumeMount → Container → Container
add_mount m c = record c { volume_mounts = c.volume_mounts ++ m ∷ [] }

unfoldable pub volume_name_of_path : String → String
unfolding replace_all to_lower
volume_name_of_path path = to_lower (replace_all "/" "-" (drop_first path))

-- addHostPathMount. Every caller passes the index of a container that is there.
unfoldable pub add_host_path_mount : PodSpec → ℕ → String → PodSpec
unfolding volume_name_of_path
add_host_path_mount pod index path =
    let name = volume_name_of_path path in
    record pod {
      volumes = pod.volumes ++ record { name = name; source = host_path path } ∷ [];
      containers =
          modify_at pod.containers index (add_mount (record { name = name; mount_path = path }));
    }

-- addConfigMapMount
unfoldable pub add_config_map_mount : PodSpec → ℕ → String → String → PodSpec
add_config_map_mount pod index config_map path =
    let name = concat ("config-map-vol-" ∷ config_map ∷ []) in
    record pod {
      volumes = pod.volumes ++ record { name = name; source = config_map_source config_map } ∷ [];
      containers =
          modify_at pod.containers index (add_mount (record { name = name; mount_path = path }));
    }

abbrev pub first_condition_failed : List (String × String) → Option String
first_condition_failed [] = none
first_condition_failed ((type, text) ∷ _) = if type == "Failed" then some text else none

-- isSingleJobCompleted
unfoldable pub is_single_job_completed : Job → Bool × Option Err
is_single_job_completed job =
    if ltb 0 job.status.failed
    then (true, some (message (concat ("Job " ∷ job.name ∷ " failed" ∷ []))))
    else if nat_eq job.status.succeeded job.spec.completions
    then (true, none)
    else if ltb 0 job.status.active
    then (false, none)
    else elim (first_condition_failed job.status.conditions) [
      | some text ↦ (true, some (message text))
      | none ↦ (false, none)
    ]
