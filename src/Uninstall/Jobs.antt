-- ===== src/Uninstall/Jobs.antt =====
-- The jobs of pkg/controllers/uninstall.go: one that uninstalls a node and one that clears the
-- database; getMongoConnectionString of mgmt_controller.go.
use nvmesh_k8s_operator.Prelude.{String, true, Option, none, some, List, [], ◌∷◌, concat, modify_at}
use nvmesh_k8s_operator.Api.{NvMesh}
use nvmesh_k8s_operator.Slices.{sanitize_string}
use nvmesh_k8s_operator.Kube.{
  Client, Act, pure, call, ◌>>=◌, unless, is_already_exists, error_text, Err, JobSpec, PodSpec,
  Container, literal,
}
use nvmesh_k8s_operator.Jobs.{
  get_new_job, job_object, get_core_full_image_name, add_host_path_mount, match_node,
  registry_cred_secret_name,
}

abbrev pub uninstall_job_name_prefix : String
uninstall_job_name_prefix = "n-uninstall-"

abbrev pub mongo_instance_image_name : String
mongo_instance_image_name = "nvmesh-mongo-instance"

unfoldable pub get_uninstall_job_name : String → String
unfolding sanitize_string
get_uninstall_job_name node = concat (uninstall_job_name_prefix ∷ sanitize_string node ∷ [])

unfoldable pub get_uninstall_job_image_name : NvMesh → String
unfolding get_core_full_image_name
get_uninstall_job_image_name cr = get_core_full_image_name cr "nvmesh-uninstall-job"

abbrev pub set_container_as_privileged : Container → Container
set_container_as_privileged c = record c { privileged = true }

unfoldable pub add_host_path_mounts : PodSpec → List String → PodSpec
unfolding add_host_path_mount
add_host_path_mounts pod [] = pod
add_host_path_mounts pod (path ∷ paths) =
    add_host_path_mounts (add_host_path_mount pod 0 path) paths

abbrev pub uninstall_env : Container → Container
uninstall_env c =
    set_container_as_privileged
      (record c { env = record { name = "KEEP_DOWNLOAD_CACHE"; value = literal "false" } ∷ [] })

unfoldable pub get_uninstall_job : NvMesh → (node : String) → JobSpec
unfolding get_new_job add_host_path_mounts get_uninstall_job_name get_uninstall_job_image_name
get_uninstall_job cr node =
    let job = get_new_job cr (get_uninstall_job_name node) (get_uninstall_job_image_name cr) in
    let pod =
      add_host_path_mounts job.template ("/opt" ∷ "/etc/opt" ∷ "/var/log" ∷ "/var/opt" ∷ []) in
    record job {
      template = record pod {
        containers = modify_at pod.containers 0 uninstall_env;
        node_name = node;
      };
    }

-- The job as `uninstallNode` creates it: selected by its name, and bound to the node's host name.
unfoldable pub node_uninstall_job : NvMesh → (node : String) → JobSpec
unfolding get_uninstall_job match_node
node_uninstall_job cr node =
    let job = get_uninstall_job cr node in
    let labels = ("job-name", get_uninstall_job_name node) ∷ [] in
    record job {
      selector = some labels;
      template_labels = labels;
      template = record (job.template) { node_selector = match_node node };
    }

unfoldable pub get_mongo_connection_string : NvMesh → String
get_mongo_connection_string cr =
    concat ("mongo-svc." ∷ cr.meta.namespace ∷ ".svc.cluster.local:27017" ∷ [])

abbrev pub clear_db_container : NvMesh → Container → Container
clear_db_container cr c = record c {
  command = "mongo" ∷ [];
  args =
      concat (get_mongo_connection_string cr ∷ "/management" ∷ [])
      ∷ "--eval"
      ∷ "db.dropDatabase()"
      ∷ [];
}

unfoldable pub clear_db_job : NvMesh → (name : String) → JobSpec
unfolding get_new_job get_core_full_image_name get_mongo_connection_string
clear_db_job cr name =
    let job = get_new_job cr name (get_core_full_image_name cr mongo_instance_image_name) in
    record job {
      backoff_limit = 1;
      template = record (job.template) {
        containers = modify_at job.template.containers 0 (clear_db_container cr);
        image_pull_secrets = registry_cred_secret_name ∷ [];
      };
    }

module _ {W : Type 0} (client : Client W) where
  -- `r.Client.Create(…)`: a job that exists already is no error, another error is wrapped.
  abbrev pub create_job :
      NvMesh → (name : String) → JobSpec → (text : Err → String) → Act W (Option Err)
  create_job cr name spec text = do
    e ← call (client.create (job_object cr name spec))
    pure (elim (unless is_already_exists e) [ none ↦ none | some x ↦ some (Err.wrap x (text x)) ])

  unfoldable pub uninstall_node : NvMesh → (node : String) → Act W (Option Err)
  unfolding node_uninstall_job get_uninstall_job_name error_text
  uninstall_node cr node =
      create_job cr (get_uninstall_job_name node) (node_uninstall_job cr node) (λ x.
        concat ("Failed to run UninstallJob on node " ∷ node ∷ ". Error: " ∷ error_text x ∷ []))

  unfoldable pub run_clear_db_job : NvMesh → (name : String) → Act W (Option Err)
  unfolding clear_db_job
  run_clear_db_job cr name =
      create_job cr name (clear_db_job cr name) (λ _. "Failed to create Clear DB job")
