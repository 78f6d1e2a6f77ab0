-- ===== src/Core/DaemonSets.antt =====
-- initDaemonSets of pkg/controllers/core_controller.go: what the operator writes into the containers
-- of a daemon set of NVMesh core. The variable NVMESH_VERSION of such a container has a literal value.
pub mod Mounted
use nvmesh_k8s_operator.Prelude.{
  String, Bool, Option, none, some, List, [], ◌∷◌, ◌++◌, map, ◌||◌, ◌==◌, if◌then◌else◌,
}
use nvmesh_k8s_operator.Api.{NvMesh}
use nvmesh_k8s_operator.Kube.{PodSpec, Container, Volume, VolumeMount, EnvVar, literal, host_path}
use nvmesh_k8s_operator.Jobs.{get_image_pull_policy, get_core_full_image_name, add_mount}

-- The image that a container runs: a container of another name keeps the name of the one before it.
unfoldable pub container_image : (container previous : String) → String
container_image container previous =
    if container == "mcs" || container == "agent"
    then "nvmesh-mcs"
    else if container == "toma"
    then "nvmesh-toma"
    else if container == "tracer"
    then "nvmesh-tracer"
    else if container == "driver-container"
    then "nvmesh-driver-container"
    else previous

-- The volume that a container is given, by name and path, where the cluster uses more than TCP.
unfoldable pub infiniband_mount : NvMesh → String → Option (String × String)
infiniband_mount cr container =
    if cr.spec.core.tcp_only
    then none
    else if container == "toma"
    then some ("etc-libibverbs", "/etc/libibverbs.d/")
    else if container == "driver-container"
    then some ("etc-infiniband", "/etc/infiniband")
    else none

abbrev pub add_volume : Option (String × String) → List Volume → List Volume
add_volume none volumes = volumes
add_volume (some (name, path)) volumes =
    volumes ++ record { name = name; source = host_path path } ∷ []

abbrev pub add_volume_mount : Option (String × String) → Container → Container
add_volume_mount none c = c
add_volume_mount (some (name, path)) c = add_mount (record { name = name; mount_path = path }) c

abbrev pub set_version : String → EnvVar → EnvVar
set_version version e =
    if e.name == "NVMESH_VERSION" then record e { value = literal version } else e

-- addKeepRunningAfterFailureEnvVar of nvmesh_controller.go
unfoldable pub keep_running_variable : NvMesh → List EnvVar
keep_running_variable cr =
    if cr.spec.debug.containers_keep_running_after_failure
    then record { name = "KEEP_RUNNING_WHEN_FINISHED"; value = literal "true" } ∷ []
    else []

unfoldable pub set_env_variable_values : NvMesh → Container → Container
unfolding keep_running_variable
set_env_variable_values cr c = record c {
  env = map (set_version cr.spec.core.version) c.env ++ keep_running_variable cr;
}

-- A container with its mount, its image and its pull policy.
abbrev pub with_image : NvMesh → (image : String) → Container → Container
with_image cr image c = record (add_volume_mount (infiniband_mount cr c.name) c) {
  image = get_core_full_image_name cr image;
  image_pull_policy = get_image_pull_policy cr;
}

unfoldable pub init_container : NvMesh → (image : String) → Container → Container
unfolding infiniband_mount set_env_variable_values get_image_pull_policy get_core_full_image_name
init_container cr image c = set_env_variable_values cr (with_image cr image c)

-- The loop: `previous` is the image name that the last container left.
unfoldable pub init_containers :
    NvMesh → (previous : String) → List Volume → List Container → List Volume × List Container
unfolding container_image infiniband_mount init_container
init_containers cr previous volumes [] = (volumes, [])
init_containers cr previous volumes (c ∷ containers) =
    let image = container_image c.name previous in
    let volumes = add_volume (infiniband_mount cr c.name) volumes in
    let rest = init_containers cr image volumes containers in
    (rest.0, init_container cr image c ∷ rest.1)

unfoldable pub init_daemon_sets : NvMesh → PodSpec → PodSpec
unfolding init_containers
init_daemon_sets cr pod =
    let done = init_containers cr "" pod.volumes pod.containers in
    record pod { volumes = done.0; containers = done.1 }
