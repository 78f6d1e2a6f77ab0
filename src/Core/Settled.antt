-- ===== src/Core/Settled.antt =====
-- What the core's ShouldUpdateObject says of an object that its InitObject has made.
use nvmesh_k8s_operator.Prelude.{
  String, Bool, false, Option, none, some, ap, List, [], ◌∷◌, ◌++◌, map, ◌||◌, ◌≡◌, refl, arith,
  any, All, eq_iff, split, Bool-cases, inl, inr,
}
use nvmesh_k8s_operator.Prelude.Dict.{Dict, get_text}
use nvmesh_k8s_operator.Prelude.Distinct.{AreDistinct, put-AreDistinct, Finds, AreDistinct-Finds}
use nvmesh_k8s_operator.Api.{NvMesh}
use nvmesh_k8s_operator.Kube.{
  EnvVar, Container, Volume, Workload, Ran, returned, Result, ok, Body, daemon_set, config_map,
}
use nvmesh_k8s_operator.Objects.Idle.{SaysNoFirst}
use nvmesh_k8s_operator.Core.{
  add_lines, key_value, put_pair, config_string_to_dict, conf_differs, init_core_config_map,
  should_update_nvmesh_conf, field_update, should_update_core_config_map,
}
use nvmesh_k8s_operator.Core.DaemonSets.{
  set_version, with_image, keep_running_variable, infiniband_mount, container_image, add_volume,
  set_env_variable_values, init_container, init_containers, init_daemon_sets,
}
use nvmesh_k8s_operator.Core.Component.{
  is_compared, is_other_version, containers_differ, should_update_daemon_set, init_core_body,
  should_update_core_body,
}

abbrev IsUpToDate : NvMesh → Container → Type 0
IsUpToDate cr c = any (is_other_version cr.spec.core.version) c.env ≡ false

any-append :
    {A : Type 0} (p : A → Bool) (xs ys : List A) → any p (xs ++ ys) ≡ (any p xs || any p ys)
any-append p [] ys = refl
any-append p (x ∷ xs) ys = ground (arith, any-append p xs ys)

set_version-current :
    (v : String) (env : List EnvVar) → any (is_other_version v) (map (set_version v) env) ≡ false
set_version-current v [] = refl
set_version-current v (e ∷ env) =
    ground (arith, set_version-current v env, eq_iff e.name "NVMESH_VERSION", eq_iff v v)

keep_running-current :
    (cr : NvMesh) → any (is_other_version cr.spec.core.version) (keep_running_variable cr) ≡ false
unfolding keep_running_variable
keep_running-current cr = ground arith

set_env-IsUpToDate : (cr : NvMesh) (c : Container) → IsUpToDate cr (set_env_variable_values cr c)
unfolding set_env_variable_values
set_env-IsUpToDate cr c = ground (
  arith,
  any-append (is_other_version cr.spec.core.version) (map (set_version cr.spec.core.version) c.env)
      (keep_running_variable cr),
  set_version-current cr.spec.core.version c.env,
  keep_running-current cr,
)

init_containers-AreUpToDate :
    (cr : NvMesh) (previous : String) (volumes : List Volume) (cs : List Container)
    → All (IsUpToDate cr) (init_containers cr previous volumes cs).1
unfolding init_containers init_container
init_containers-AreUpToDate cr previous volumes [] = tt
init_containers-AreUpToDate cr previous volumes (c ∷ cs) = (
  set_env-IsUpToDate cr (with_image cr (container_image c.name previous) c),
  init_containers-AreUpToDate cr (container_image c.name previous)
      (add_volume (infiniband_mount cr c.name) volumes) cs,
)

containers_differ_self :
    (cr : NvMesh) (cs : List Container)
    → All (IsUpToDate cr) cs
    → containers_differ cr.spec.core.version cs cs ≡ returned false
unfolding containers_differ
containers_differ_self cr [] h = refl
containers_differ_self cr (c ∷ cs) (current, h) =
    ground (arith, containers_differ_self cr cs h, eq_iff c.image c.image, current)

daemon_set-settled :
    (cr : NvMesh) (ds : Workload)
    → let made = record ds { template = init_daemon_sets cr ds.template } in
      should_update_daemon_set cr made made ≡ returned false
unfolding should_update_daemon_set init_daemon_sets
daemon_set-settled cr ds = ground (
  arith,
  containers_differ_self cr (init_containers cr "" ds.template.volumes ds.template.containers).1
      (init_containers-AreUpToDate cr "" ds.template.volumes ds.template.containers),
)

add_lines-AreDistinct :
    (d : Dict String) (lines : List String) → AreDistinct d → AreDistinct (add_lines d lines)
unfolding add_lines
add_lines-AreDistinct d [] h = h
add_lines-AreDistinct d (line ∷ lines) h =
    let (k, v) = key_value (split line "=") in
    add_lines-AreDistinct (put_pair d (key_value (split line "="))) lines (put-AreDistinct d k v h)

config_string_to_dict-AreDistinct : (conf : String) → AreDistinct (config_string_to_dict conf)
unfolding config_string_to_dict
config_string_to_dict-AreDistinct conf = add_lines-AreDistinct [] (split conf "\n") tt

conf_differs-Finds : (pairs d : Dict String) → Finds d pairs → conf_differs pairs d ≡ false
unfolding conf_differs
conf_differs-Finds [] d h = refl
conf_differs-Finds ((k, v) ∷ pairs) d (found, h) =
    ground (arith, conf_differs-Finds pairs d h, found, eq_iff v v)

field_update_self : (field value : String) → (field_update field value value).0 ≡ false
unfolding field_update should_update_nvmesh_conf
field_update_self field value =
    let d = config_string_to_dict value in
    ground (
      arith,
      conf_differs-Finds d d (AreDistinct-Finds d (config_string_to_dict-AreDistinct value)),
      eq_iff value value,
    )

config_map-Finds :
    (pairs d : Dict String) → Finds d pairs → (should_update_core_config_map pairs d).0 ≡ false
unfolding should_update_core_config_map
config_map-Finds [] d h = refl
config_map-Finds ((field, value) ∷ pairs) d (found, h) =
    let value_found : get_text d field ≡ value =
      ap (λ (o : Option String). elim o [ none ↦ "" | some v ↦ v ]) found in
    ground (arith, config_map-Finds pairs d h, field_update_self field value, value_found)

init_core_config_map-AreDistinct :
    (cr : NvMesh) (d : Dict String) → AreDistinct d → AreDistinct (init_core_config_map cr d)
unfolding init_core_config_map
init_core_config_map-AreDistinct cr d h =
    put-AreDistinct _ _ _ (put-AreDistinct _ _ _ (put-AreDistinct _ _ _ (put-AreDistinct _ _ _ h)))

-- The keys of a config map are distinct, as those of every Go map.
abbrev pub HasDistinctKeys : Body → Type 0
HasDistinctKeys (config_map d) = AreDistinct d
HasDistinctKeys _ = Unit

abbrev Settles : NvMesh → String → Ran (Result Body) → Type 0
Settles cr name (returned (ok b)) = SaysNoFirst (should_update_core_body cr name b b)
Settles cr name _ = Unit

pub init_core_body-Settles :
    (cr : NvMesh) (name : String) (b : Body)
    → HasDistinctKeys b
    → Settles cr name (init_core_body cr b)
unfolding init_core_body should_update_core_body
init_core_body-Settles cr name (daemon_set ds) h = elim (Bool-cases (is_compared name)) [
  | inl e ↦ rw e (rw (daemon_set-settled cr ds) refl)
  | inr e ↦ rw e refl
]
init_core_body-Settles cr name (config_map d) h =
    let made = init_core_config_map cr d in
    config_map-Finds made made (AreDistinct-Finds made (init_core_config_map-AreDistinct cr d h))
init_core_body-Settles cr name b h = refl
