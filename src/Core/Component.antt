-- ===== src/Core/Component.antt =====
-- InitObject and ShouldUpdateObject of pkg/controllers/core_controller.go.
use nvmesh_k8s_operator.Prelude.{
  String, Bool, true, false, List, [], ◌∷◌, ◌==◌, ◌&&◌, ◌||◌, not, if◌then◌else◌, any, length,
  nat_eq,
}
use nvmesh_k8s_operator.Api.{NvMesh}
use nvmesh_k8s_operator.Kube.{
  Ran, returned, panicked, Result, Container, EnvVar, EnvSource, literal, secret_key, Workload,
  Body, daemon_set, config_map,
}
use nvmesh_k8s_operator.Objects.{Component}
use nvmesh_k8s_operator.Objects.Parts.{
  with_body, unchanged, map_ran, with_daemon_set, with_config_map,
}
use nvmesh_k8s_operator.Core.{init_core_config_map, should_update_core_config_map}
use nvmesh_k8s_operator.Core.DaemonSets.{init_daemon_sets}

-- env.Value, which is empty where the value is taken from elsewhere
abbrev pub env_value : EnvSource → String
env_value (literal v) = v
env_value (secret_key _ _) = ""

abbrev pub is_other_version : String → EnvVar → Bool
is_other_version version e = e.name == "NVMESH_VERSION" && not (env_value e.value == version)

-- The loop of `shouldUpdateDaemonSet` over the containers that were found, beside the expected ones.
unfoldable pub containers_differ : (version : String) → (expected found : List Container) → Ran Bool
containers_differ version expected [] = returned false
containers_differ version [] (c ∷ found) = panicked
containers_differ version (e ∷ expected) (c ∷ found) =
    let rest = containers_differ version expected found in
    if not (c.image == e.image) || any (is_other_version version) c.env then returned true else rest

unfoldable pub should_update_daemon_set : NvMesh → (expected ds : Workload) → Ran Bool
unfolding containers_differ
should_update_daemon_set cr expected ds =
    if not (nat_eq (length ds.template.containers) (length expected.template.containers))
    then returned true
    else containers_differ cr.spec.core.version expected.template.containers ds.template.containers

abbrev pub is_compared : String → Bool
is_compared name = name == "nvmesh-mcs-agent" || name == "nvmesh-target" || name == "nvmesh-client"

unfoldable pub init_core_body : NvMesh → Body → Ran (Result Body)
unfolding init_daemon_sets init_core_config_map
init_core_body cr (daemon_set ds) =
    unchanged (daemon_set (record ds { template = init_daemon_sets cr ds.template }))
init_core_body cr (config_map fields) = unchanged (config_map (init_core_config_map cr fields))
init_core_body cr b = unchanged b

-- The switch of ShouldUpdateObject: whether to update, and the expected object as it is then.
unfoldable pub should_update_core_body :
    NvMesh → (name : String) → (expected found : Body) → Ran (Bool × Body)
unfolding should_update_daemon_set should_update_core_config_map
should_update_core_body cr name expected (daemon_set ds) =
    if is_compared name
    then map_ran (λ b. (b, expected))
        (with_daemon_set (λ e. should_update_daemon_set cr e ds) expected)
    else map_ran (λ b. (b, expected)) (with_daemon_set (λ _. returned false) expected)
should_update_core_body cr name expected (config_map fields) =
    with_config_map
      (λ e. let (b, e') = should_update_core_config_map e fields in returned (b, config_map e'))
      expected
should_update_core_body cr name expected _ = returned (false, expected)

-- NVMeshCoreReconciler as a component.
unfoldable pub core_component : {W : Type 0} → Component W
unfolding init_core_body should_update_core_body
core_component = record {
  init_object = λ cr o. with_body o (init_core_body cr o.body);
  should_update_object = λ cr expected found w. (
    map_ran (λ p. (p.0, record expected { body = p.1 }))
        (should_update_core_body cr found.name expected.body found.body),
    w,
  );
}
