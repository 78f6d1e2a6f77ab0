-- ===== src/Csi/Settled.antt =====
-- What the CSI driver's ShouldUpdateObject says of an object that its InitObject has made.
use nvmesh_k8s_operator.Prelude.{
  String, Bool, true, false, if◌then◌else◌, [], ◌∷◌, ◌==◌, ◌≡◌, refl, Bool-cases, inl, inr,
}
use nvmesh_k8s_operator.Api.{NvMesh}
use nvmesh_k8s_operator.Kube.{
  Workload, Ran, returned, panicked, ok, Result, Body, stateful_set, daemon_set, config_map,
  role_binding, cluster_role_binding,
}
use nvmesh_k8s_operator.Objects.Parts.{map_ran, first_container-HasContainer}
use nvmesh_k8s_operator.Objects.Idle.{SaysNo}
use nvmesh_k8s_operator.Reflect.Workloads.{same_image_and_replicas_lem, same_image_and_policy_lem}
use nvmesh_k8s_operator.Csi.{
  set_replicas, init_csi_template, init_csi_body, should_update_csi_body,
  init_csi_controller_stateful_set, init_csi_node_driver_daemon_set, init_subjects,
  should_update_csi_controller_stateful_set, should_update_csi_node_driver_daemon_set,
}

abbrev Settles : String → Ran (Result Body) → Type 0
Settles name (returned (ok b)) = SaysNo (should_update_csi_body name b b)
Settles name _ = Unit

-- What InitObject makes of the two workloads; the template is made first.
stateful_set-Settles :
    (cr : NvMesh) (name : String) (ss : Workload) (r : Ran Workload)
    → init_csi_template cr ss ≡ r
    → Settles name (map_ran (λ w. ok (stateful_set (set_replicas cr w))) r)
unfolding should_update_csi_body should_update_csi_controller_stateful_set init_csi_template
stateful_set-Settles cr name ss panicked e = tt
stateful_set-Settles cr name ss (returned w) e =
    elim (Bool-cases (name == "nvmesh-csi-controller")) [
      | inl q ↦ rw q (
          rw
            (same_image_and_replicas_lem (set_replicas cr w)
              (first_container-HasContainer _ _ w e).0 cr.spec.csi.controller_replicas refl)
            refl)
      | inr q ↦ rw q refl
    ]

daemon_set-Settles :
    (cr : NvMesh) (name : String) (ds : Workload) (r : Ran Workload)
    → init_csi_template cr ds ≡ r
    → Settles name (map_ran (λ w. ok (daemon_set w)) r)
unfolding should_update_csi_body should_update_csi_node_driver_daemon_set init_csi_template
daemon_set-Settles cr name ss panicked e = tt
daemon_set-Settles cr name ss (returned w) e =
    elim (Bool-cases (name == "nvmesh-csi-node-driver")) [
      | inl q ↦
          rw q (rw (same_image_and_policy_lem w (first_container-HasContainer _ _ w e).0) refl)
      | inr q ↦ rw q refl
    ]

if-Settles :
    (name : String) (t : Bool) (x y : Ran (Result Body))
    → Settles name x
    → (t ≡ false → Settles name y)
    → Settles name (if t then x else y)
if-Settles name true x y hx hy = hx
if-Settles name false x y hx hy = hy refl

pub init_csi_body-Settles :
    (cr : NvMesh) (name : String) (b : Body) → Settles name (init_csi_body cr name b)
unfolding init_csi_body should_update_csi_body init_csi_controller_stateful_set
    init_csi_node_driver_daemon_set init_subjects
init_csi_body-Settles cr name (stateful_set ss) =
    if-Settles name (name == "nvmesh-csi-controller") _ _
      (if-Settles name (cr.spec.csi.version == "") _ _ tt
        (λ _. stateful_set-Settles cr name ss (init_csi_template cr ss) refl))
      (λ other. rw other refl)
init_csi_body-Settles cr name (daemon_set ds) =
    if-Settles name (name == "nvmesh-csi-node-driver") _ _
      (if-Settles name (cr.spec.csi.version == "") _ _ tt
        (λ _. daemon_set-Settles cr name ds (init_csi_template cr ds) refl))
      (λ other. rw other refl)
init_csi_body-Settles cr name (config_map fields) = refl
init_csi_body-Settles cr name (role_binding []) = tt
init_csi_body-Settles cr name (role_binding (s ∷ l)) = refl
init_csi_body-Settles cr name (cluster_role_binding []) = tt
init_csi_body-Settles cr name (cluster_role_binding (s ∷ l)) = refl
init_csi_body-Settles cr name b = refl
