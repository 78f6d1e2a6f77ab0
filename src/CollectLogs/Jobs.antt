-- ===== src/CollectLogs/Jobs.antt =====
-- The jobs of pkg/controllers/collect_logs.go: one dumps the database, one copies the config maps, and
-- one for each node packs its logs.
use nvmesh_k8s_operator.Prelude.{
  String, true, Option, none, some, List, [], ◌∷◌, ◌++◌, concat, modify_at, if◌then◌else◌,
}
use nvmesh_k8s_operator.Api.{NvMesh, ClusterAction}
use nvmesh_k8s_operator.Slices.{sanitize_string}
use nvmesh_k8s_operator.Kube.{
  Client, Act, Err, JobSpec, PodSpec, Container, EnvVar, literal, secret_key,
}
use nvmesh_k8s_operator.Tasks.{get_action_arg}
use nvmesh_k8s_operator.Jobs.{
  get_new_job, get_core_full_image_name, add_host_path_mount, add_config_map_mount, match_node,
}
use nvmesh_k8s_operator.Uninstall.Jobs.{
  create_job, set_container_as_privileged, add_host_path_mounts, get_mongo_connection_string,
}

abbrev pub collect_db_job_name : String
collect_db_job_name = "collect-db"

abbrev pub collect_config_maps_job_name : String
collect_config_maps_job_name = "collect-config-maps"

abbrev pub logs_save_path : String
logs_save_path = "/opt/nvmesh-operator/logs"

-- `collectLogsJobName + "-" + sanitizeString(nodeName)`
unfoldable pub collect_logs_job_name_of : String → String
unfolding sanitize_string
collect_logs_job_name_of node = concat ("collect-logs-" ∷ sanitize_string node ∷ [])

unfoldable pub get_collect_job_image_name : NvMesh → String
unfolding get_core_full_image_name
get_collect_job_image_name cr = get_core_full_image_name cr "nvmesh-logs-collector"

-- getNVMeshClusterName
abbrev pub get_nvmesh_cluster_name : NvMesh → String
get_nvmesh_cluster_name cr = concat (cr.meta.namespace ∷ "_" ∷ cr.meta.name ∷ [])

abbrev pub env_var : String → String → EnvVar
env_var name value = record { name = name; value = literal value }

abbrev s3_var : String → String → EnvVar
s3_var name key = record { name = name; value = secret_key "s3-bucket-secrets" key }

unfoldable pub add_cluster_name_env_var : NvMesh → Container → Container
add_cluster_name_env_var cr c = record c {
  env = c.env ++ env_var "CLUSTER_NAME" (get_nvmesh_cluster_name cr) ∷ [];
}

unfoldable pub add_s3_credentials_env_var : String → Container → Container
add_s3_credentials_env_var bucket c = record c {
  env =
      c.env
      ++ s3_var "S3_KEY_ID" "AWS_ACCESS_KEY_ID"
        ∷ s3_var "S3_KEY_SECRET" "AWS_SECRET_ACCESS_KEY"
        ∷ env_var "S3_BUCKET_NAME" bucket
        ∷ [];
}

abbrev add_arg : String → Container → Container
add_arg arg c = record c { args = c.args ++ arg ∷ [] }

-- `if bucketName, ok := getActionArg(action, "upload-to-s3"); ok`
unfoldable pub add_upload : Option String → Container → Container
unfolding add_s3_credentials_env_var
add_upload none c = c
add_upload (some bucket) c = add_s3_credentials_env_var bucket (add_arg "--upload-to-s3" c)

-- What the three jobs do with their container: privileged, the cluster's name, the upload and the
-- debug flag.
unfoldable pub log_container : NvMesh → ClusterAction → Container → Container
unfolding add_cluster_name_env_var add_upload get_action_arg
log_container cr action c =
    let named = add_cluster_name_env_var cr (set_container_as_privileged c) in
    let uploading = add_upload (get_action_arg action "upload-to-s3") named in
    if cr.spec.debug.collect_logs_jobs_run_forever then add_arg "--debug" uploading else uploading

abbrev run_with : List String → List String → List EnvVar → Container → Container
run_with command args env c = record c { command = command; args = args; env = env }

unfoldable pub collect_db_job : NvMesh → ClusterAction → JobSpec
unfolding get_new_job get_collect_job_image_name log_container add_host_path_mount
    get_mongo_connection_string
collect_db_job cr action =
    let job = get_new_job cr collect_db_job_name (get_collect_job_image_name cr) in
    let uri = concat ("mongodb://" ∷ get_mongo_connection_string cr ∷ "/management" ∷ []) in
    let fill = λ (c : Container). log_container cr action (
      run_with ("sudo" ∷ []) ("-E" ∷ "/init.sh" ∷ "--db-dump" ∷ []) (env_var "MONGO_URI" uri ∷ [])
        c) in
    let pod = record (job.template) {
      termination_grace_seconds = some 1;
      containers = modify_at job.template.containers 0 fill;
    } in
    record job { template = add_host_path_mount pod 0 logs_save_path }

abbrev add_config_maps : PodSpec → List String → PodSpec
add_config_maps pod [] = pod
add_config_maps pod (name ∷ names) =
    add_config_maps (add_config_map_mount pod 0 name (concat ("/config-maps/" ∷ name ∷ []))) names

unfoldable pub collect_config_maps_job : NvMesh → ClusterAction → JobSpec
unfolding get_new_job get_collect_job_image_name log_container add_host_path_mount
    add_config_map_mount
collect_config_maps_job cr action =
    let job = get_new_job cr collect_config_maps_job_name (get_collect_job_image_name cr) in
    let fill = λ (c : Container).
      log_container cr action
        (run_with ("/bin/bash" ∷ []) ("-c" ∷ "/init.sh --config-maps" ∷ []) [] c) in
    let pod = record (job.template) {
      termination_grace_seconds = some 1;
      containers = modify_at job.template.containers 0 fill;
    } in
    record job {
      template =
          add_config_maps (add_host_path_mount pod 0 logs_save_path)
            ("nvmesh-mgmt-config" ∷ "nvmesh-core-config" ∷ "nvmesh-csi-config" ∷ []);
    }

unfoldable pub collect_logs_job : NvMesh → ClusterAction → (node : String) → JobSpec
unfolding get_new_job collect_logs_job_name_of get_collect_job_image_name log_container
    add_host_path_mounts match_node
collect_logs_job cr action node =
    let job = get_new_job cr (collect_logs_job_name_of node) (get_collect_job_image_name cr) in
    let fill = λ (c : Container).
      log_container cr action
        (run_with ("sudo" ∷ []) ("-E" ∷ "/init.sh" ∷ "--node-logs" ∷ []) [] c) in
    let pod = record (job.template) {
      host_network = true;
      host_pid = true;
      containers = modify_at job.template.containers 0 fill;
    } in
    let mounted =
      add_host_path_mounts pod
        ("/var/opt/NVMesh" ∷ "/var/log/NVMesh" ∷ "/opt/NVMesh" ∷ logs_save_path ∷ []) in
    record job { template = record mounted { node_selector = match_node node } }

module _ {W : Type 0} (client : Client W) where
  unfoldable pub run_collect_db_job : NvMesh → ClusterAction → Act W (Option Err)
  unfolding collect_db_job
  run_collect_db_job cr action =
      create_job client cr collect_db_job_name (collect_db_job cr action)
        (λ _. concat ("Failed to create " ∷ collect_db_job_name ∷ []))

  unfoldable pub run_collect_config_maps_job : NvMesh → ClusterAction → Act W (Option Err)
  unfolding collect_config_maps_job
  run_collect_config_maps_job cr action =
      create_job client cr collect_config_maps_job_name (collect_config_maps_job cr action)
        (λ _. concat ("Failed to create " ∷ collect_config_maps_job_name ∷ []))

  unfoldable pub create_collect_logs_job :
      NvMesh → ClusterAction → (node : String) → Act W (Option Err)
  unfolding collect_logs_job collect_logs_job_name_of
  create_collect_logs_job cr action node =
      create_job client cr (collect_logs_job_name_of node) (collect_logs_job cr action node) (λ _.
        concat ("Failed to create " ∷ collect_logs_job_name_of node ∷ " on node " ∷ node ∷ []))
