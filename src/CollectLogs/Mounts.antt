-- ===== src/CollectLogs/Mounts.antt =====
-- Every mount of the operator's jobs names a volume of the job's pod.
use nvmesh_k8s_operator.Prelude.{String, Option, none, some, ◌≡◌, refl, arith}
use nvmesh_k8s_operator.Api.{NvMesh, ClusterAction}
use nvmesh_k8s_operator.Kube.{Container}
use nvmesh_k8s_operator.Jobs.Mounts.{AreMounted}
use nvmesh_k8s_operator.Uninstall.Jobs.{node_uninstall_job, set_container_as_privileged}
use nvmesh_k8s_operator.Tasks.{get_action_arg}
use nvmesh_k8s_operator.CollectLogs.Jobs.{
  log_container, add_upload, add_s3_credentials_env_var, add_cluster_name_env_var, collect_db_job,
  collect_config_maps_job, collect_logs_job,
}

add_upload-mounts :
    (o : Option String) (c : Container) → (add_upload o c).volume_mounts ≡ c.volume_mounts
unfolding add_upload add_s3_credentials_env_var
add_upload-mounts none c = refl
add_upload-mounts (some bucket) c = refl

log_container-mounts :
    (cr : NvMesh) (action : ClusterAction) (c : Container)
    → (log_container cr action c).volume_mounts ≡ c.volume_mounts
unfolding log_container add_cluster_name_env_var
log_container-mounts cr action c = ground (
  arith,
  add_upload-mounts (get_action_arg action "upload-to-s3")
      (add_cluster_name_env_var cr (set_container_as_privileged c)),
)

-- The pods of the four jobs: every mount of a container names a volume of the pod.
pub jobs-AreMounted :
    (cr : NvMesh) (action : ClusterAction) (node : String)
    → AreMounted (node_uninstall_job cr node).template
      × AreMounted (collect_db_job cr action).template
      × AreMounted (collect_config_maps_job cr action).template
      × AreMounted (collect_logs_job cr action node).template
unfolding node_uninstall_job collect_db_job collect_config_maps_job collect_logs_job
jobs-AreMounted cr action node = (
  ground arith,
  simp log_container-mounts ((refl, tt), tt),
  simp log_container-mounts ((refl, (refl, (refl, (refl, tt)))), tt),
  simp log_container-mounts ((refl, (refl, (refl, (refl, tt)))), tt),
)
