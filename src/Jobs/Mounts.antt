-- ===== src/Jobs/Mounts.antt =====
-- The mounts of the jobs' containers: each names a volume of the pod.
use nvmesh_k8s_operator.Prelude.{
  ℕ, zero, suc, String, Bool, true, List, [], ◌∷◌, ◌++◌, any, ◌||◌, ◌==◌, ◌≡◌, refl, arith, eq_iff,
  All, All-append, All-map, modify_at, concat,
}
use nvmesh_k8s_operator.Kube.{PodSpec, Container, Volume, VolumeMount, host_path, config_map_source}
use nvmesh_k8s_operator.Jobs.{
  add_mount, volume_name_of_path, add_host_path_mount, add_config_map_mount,
}

abbrev pub has_volume : List Volume → String → Bool
has_volume volumes name = any (λ v. v.name == name) volumes

abbrev pub AreResolved : List Volume → List VolumeMount → Type 0
AreResolved volumes mounts = All (λ m. has_volume volumes m.name ≡ true) mounts

-- Every mount of every container names a volume of the pod.
abbrev pub AreMounted : PodSpec → Type 0
AreMounted pod = All (λ (c : Container). AreResolved pod.volumes c.volume_mounts) pod.containers

pub has_volume-append :
    (volumes : List Volume) (v : Volume) (name : String)
    → has_volume (volumes ++ v ∷ []) name ≡ (has_volume volumes name || v.name == name)
has_volume-append [] v name = ground arith
has_volume-append (u ∷ volumes) v name = ground (arith, has_volume-append volumes v name)

AreResolved-grow :
    (volumes : List Volume) (v : Volume) (mounts : List VolumeMount)
    → AreResolved volumes mounts
    → AreResolved (volumes ++ v ∷ []) mounts
AreResolved-grow volumes v mounts h =
    All-map _ _ mounts (λ m p. ground (arith, has_volume-append volumes v m.name, p)) h

-- A container with a mount of the new volume added.
added-AreResolved :
    (volumes : List Volume) (v : Volume) (m : VolumeMount) (c : Container)
    → v.name ≡ m.name
    → AreResolved volumes c.volume_mounts
    → AreResolved (volumes ++ v ∷ []) (add_mount m c).volume_mounts
added-AreResolved volumes v m c same h =
    All-append _ c.volume_mounts (m ∷ []) (AreResolved-grow volumes v c.volume_mounts h)
      (ground (arith, has_volume-append volumes v m.name, eq_iff v.name m.name, same), tt)

modified :
    (volumes : List Volume) (v : Volume) (m : VolumeMount)
    → v.name ≡ m.name
    → (containers : List Container) (index : ℕ)
    → All (λ (c : Container). AreResolved volumes c.volume_mounts) containers
    → All
        (λ (c : Container). AreResolved (volumes ++ v ∷ []) c.volume_mounts)
        (modify_at containers index (add_mount m))
modified volumes v m same [] index h = tt
modified volumes v m same (c ∷ containers) zero (p, h) = (
  added-AreResolved volumes v m c same p,
  All-map _ _ containers (λ d q. AreResolved-grow volumes v d.volume_mounts q) h,
)
modified volumes v m same (c ∷ containers) (suc index) (p, h) =
    (AreResolved-grow volumes v c.volume_mounts p, modified volumes v m same containers index h)

pub add_host_path_mount-AreMounted :
    (pod : PodSpec) (index : ℕ) (path : String)
    → AreMounted pod
    → AreMounted (add_host_path_mount pod index path)
unfolding add_host_path_mount
add_host_path_mount-AreMounted pod index path h =
    let name = volume_name_of_path path in
    modified pod.volumes (record { name = name; source = host_path path })
      (record { name = name; mount_path = path }) refl pod.containers index h

pub add_config_map_mount-AreMounted :
    (pod : PodSpec) (index : ℕ) (config_map path : String)
    → AreMounted pod
    → AreMounted (add_config_map_mount pod index config_map path)
unfolding add_config_map_mount
add_config_map_mount-AreMounted pod index config_map path h =
    let name = concat ("config-map-vol-" ∷ config_map ∷ []) in
    modified pod.volumes (record { name = name; source = config_map_source config_map })
      (record { name = name; mount_path = path }) refl pod.containers index h
