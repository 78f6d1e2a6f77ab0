-- ===== src/Mgmt/Settled.antt =====
-- What the management's ShouldUpdateObject says of an object that its InitObject has made.
use nvmesh_k8s_operator.Prelude.{
  ℕ, String, Bool, true, false, if◌then◌else◌, Option, none, some, List, ◌==◌, ◌≡◌, refl, ◌∙◌,
  arith, Bool-cases, inl, inr, eq_iff,
}
use nvmesh_k8s_operator.Api.{NvMesh, ClaimSpec}
use nvmesh_k8s_operator.Kube.{
  Claim, Container, Workload, ServiceSpec, Ran, returned, panicked, Result, ok, Body, stateful_set,
  config_map, service,
}
use nvmesh_k8s_operator.Slices.SameElements.{is_string_arrays_equal_elements_iff}
use nvmesh_k8s_operator.Objects.Idle.{SaysNoFirst}
use nvmesh_k8s_operator.Objects.Parts.{
  HasContainer, first_container, first_container-HasContainer, map_ran,
}
use nvmesh_k8s_operator.Reflect.Workloads.{same_image_lem, same_image_and_replicas_lem}
use nvmesh_k8s_operator.Mgmt.Init.{
  init_claims, init_first_claim, then_init, mgmt_container, mongo_container, init_mgmt_stateful_set,
  init_mongo_stateful_set, init_mgmt_body,
}
use nvmesh_k8s_operator.Mgmt.Objects.{
  ips_differ, should_update_management_stateful_set, should_update_mongo_stateful_set,
  should_update_gui_service, should_update_mgmt_body,
}

abbrev Settles : String → Ran (Result Body) → Type 0
Settles name (returned (ok b)) = SaysNoFirst (should_update_mgmt_body name b b)
Settles name _ = Unit

-- A stateful set with a container and a number of replicas.
first_claim-Settles :
    (cr : NvMesh) (name : String) (source : ClaimSpec) (w : Workload)
    → HasContainer w.template.containers
    → (name ≡ "nvmesh-management" → (n : ℕ) × (w.replicas ≡ some n))
    → Settles name (init_first_claim cr source w)
unfolding init_first_claim should_update_mgmt_body should_update_management_stateful_set
    should_update_mongo_stateful_set
first_claim-Settles cr name source w has replicas = go (init_claims cr source w.claims)
  where
    go :
        (r : Ran (List Claim))
        → Settles name (map_ran (λ claims. ok (stateful_set (record w { claims = claims }))) r)
    go panicked = tt
    go (returned claims) = elim (Bool-cases (name == "nvmesh-management")) [
      | inl e ↦
          let (n, q) = replicas ((eq_iff name "nvmesh-management").0 e) in
          rw e (rw (same_image_and_replicas_lem (record w { claims = claims }) has n q) refl)
      | inr e ↦ rw e (elim (Bool-cases (name == "mongo")) [
        | inl m ↦ rw m (rw (same_image_lem (record w { claims = claims }) has) refl)
        | inr m ↦ rw m refl
      ])
    ]

mgmt-Settles :
    (cr : NvMesh) (name : String) (change : Container → Container) (source : ClaimSpec)
    (w : Workload)
    → (name ≡ "nvmesh-management" → (n : ℕ) × (w.replicas ≡ some n))
    → Settles name (then_init (first_container change w) (init_first_claim cr source))
mgmt-Settles cr name change source w replicas = go (first_container change w) refl
  where
    go :
        (r : Ran Workload)
        → first_container change w ≡ r
        → Settles name (then_init r (init_first_claim cr source))
    go panicked e = tt
    go (returned w') e =
        let (has, same) = first_container-HasContainer change w w' e in
        first_claim-Settles cr name source w' has
          (λ q. let (n, given) = replicas q in (n, same ∙ given))

service-Settles :
    (cr : NvMesh) (name : String) (svc : ServiceSpec)
    → SaysNoFirst (should_update_mgmt_body name (service svc) (service svc))
unfolding should_update_mgmt_body should_update_gui_service
service-Settles cr name svc = elim (Bool-cases (name == "nvmesh-management-gui")) [
  | inl e ↦ rw e (go svc.external_ips)
  | inr e ↦ rw e refl
]
  where
    go : (o : Option (List String)) → ips_differ o o ≡ false
    go none = refl
    go (some ips) = rw ((is_string_arrays_equal_elements_iff ips ips).1 (λ k. refl)) refl

if-Settles :
    (name : String) (t : Bool) (x y : Ran (Result Body))
    → (t ≡ true → Settles name x)
    → (t ≡ false → Settles name y)
    → Settles name (if t then x else y)
if-Settles name true x y hx hy = hx refl
if-Settles name false x y hx hy = hy refl

pub init_mgmt_body-Settles :
    (cr : NvMesh) (name : String) (b : Body) → Settles name (init_mgmt_body cr name b)
unfolding init_mgmt_body init_mgmt_stateful_set init_mongo_stateful_set should_update_mgmt_body
init_mgmt_body-Settles cr name (stateful_set w) =
    if-Settles name (name == "nvmesh-management") _ _
      (λ _.
        if-Settles name (cr.spec.management.version == "") _ _ (λ _. tt)
          (λ _.
            mgmt-Settles cr name (mgmt_container cr) cr.spec.management.backups_volume_claim
              (record w { replicas = some cr.spec.management.replicas })
              (λ _. (cr.spec.management.replicas, refl))))
      (λ other.
        if-Settles name (name == "mongo") _ _
          (λ _.
            mgmt-Settles cr name (mongo_container cr) cr.spec.management.mongo_db.data_volume_claim
              w (λ q. absurd (ground (arith, eq_iff name "nvmesh-management"))))
          (λ neither. rw (other, neither) refl))
init_mgmt_body-Settles cr name (config_map d) = refl
init_mgmt_body-Settles cr name (service svc) = service-Settles cr name _
init_mgmt_body-Settles cr name b = refl
