-- ===== src/Mgmt/Init.antt =====
-- InitObject of pkg/controllers/mgmt_controller.go: the stateful sets of the management and of
-- MongoDB, the management's configuration and its service. The maps of a config map are never nil.
use nvmesh_k8s_operator.Prelude.{
  String, true, Option, none, some, List, [], ◌∷◌, ◌++◌, ◌==◌, if◌then◌else◌,
}
use nvmesh_k8s_operator.Prelude.Dict.{Dict, put}
use nvmesh_k8s_operator.Api.{NvMesh, ClaimSpec}
use nvmesh_k8s_operator.Kube.{
  Ran, returned, panicked, message, Result, ok, err, Container, Workload, Claim, ServiceSpec, Body,
  stateful_set, config_map, service,
}
use nvmesh_k8s_operator.Jobs.{get_core_full_image_name}
use nvmesh_k8s_operator.Objects.Parts.{first_container, unchanged, map_ran}
use nvmesh_k8s_operator.Uninstall.{delete_on_uninstall_label_key}
use nvmesh_k8s_operator.Uninstall.Jobs.{get_mongo_connection_string}
use nvmesh_k8s_operator.Jobs.{cluster_name_label_key}
use nvmesh_k8s_operator.Core.DaemonSets.{keep_running_variable}
use nvmesh_k8s_operator.Mgmt.{get_mgmt_image_from_resource}
use nvmesh_k8s_operator.Mgmt.Json.{Json, make_map, text, number, boolean, marshal_indent}

-- The map that `json.Unmarshal` makes of the text in the code.
unfoldable pub get_smtp_config : Json
get_smtp_config = make_map (
    ("host", text "smtp.gmail.com")
    ∷ ("port", number 587)
    ∷ ("secure", boolean true)
    ∷ ("authRequired", boolean true)
    ∷ ("username", text "app@excelero.com")
    ∷ ("password", text "Tom@2021")
    ∷ ("useDefault", boolean true)
    ∷ [])

abbrev mongo_hosts : NvMesh → String
mongo_hosts cr =
    if cr.spec.management.mongo_db.external
    then cr.spec.management.mongo_db.address
    else get_mongo_connection_string cr

-- The settings of the management, as `initConfigMap` puts them together.
unfoldable pub mgmt_settings : NvMesh → Json
unfolding get_smtp_config get_mongo_connection_string
mgmt_settings cr =
    let connection = make_map (("hosts", text (mongo_hosts cr)) ∷ []) in
    make_map (
      ("loggingLevel", text "DEBUG")
      ∷ ("statisticsCores", number 5)
      ∷ ("useSSL", text (if cr.spec.management.no_ssl then "false" else "true"))
      ∷ ("mongoConnection", connection)
      ∷ ("nvmeshMetadataMongoConnection", connection)
      ∷ ("statisticsMongoConnection", connection)
      ∷ ("exceleroEmail", text "customer.stats+OpenShift@excelero.com")
      ∷ ("SMTP", get_smtp_config)
      ∷ [])

unfoldable pub init_config_map : NvMesh → Dict String → Dict String
unfolding mgmt_settings marshal_indent
init_config_map cr fields =
    put (put fields "configVersion" cr.spec.management.version) "config"
      (marshal_indent (mgmt_settings cr))

abbrev or_keep : Option String → Option String → Option String
or_keep none kept = kept
or_keep (some v) kept = some v

unfoldable pub override_volume_claim_fields : (target : Claim) → (source : ClaimSpec) → Claim
override_volume_claim_fields target source = record target {
  storage_class = or_keep source.storage_class target.storage_class;
  selector = or_keep source.selector target.selector;
  requests = or_keep source.requests target.requests;
  limits = or_keep source.limits target.limits;
}

unfoldable pub add_delete_on_uninstall_label : NvMesh → Claim → Claim
add_delete_on_uninstall_label cr claim = record claim {
  labels =
      put (put claim.labels delete_on_uninstall_label_key "") cluster_name_label_key
        cr.meta.cluster_name;
}

-- What is done to `Spec.VolumeClaimTemplates[0]`, which must be there.
unfoldable pub init_claims : NvMesh → ClaimSpec → List Claim → Ran (List Claim)
unfolding override_volume_claim_fields add_delete_on_uninstall_label
init_claims cr source [] = panicked
init_claims cr source (claim ∷ claims) =
    returned (add_delete_on_uninstall_label cr (override_volume_claim_fields claim source) ∷ claims)

unfoldable pub init_first_claim : NvMesh → ClaimSpec → Workload → Ran (Result Body)
unfolding init_claims
init_first_claim cr source w =
    map_ran (λ claims. ok (stateful_set (record w { claims = claims })))
      (init_claims cr source w.claims)

-- One init step after another.
abbrev pub then_init : Ran Workload → (Workload → Ran (Result Body)) → Ran (Result Body)
then_init panicked f = panicked
then_init (returned w) f = f w

abbrev pub mgmt_container : NvMesh → Container → Container
mgmt_container cr c = record c {
  image = get_mgmt_image_from_resource cr;
  env = c.env ++ keep_running_variable cr;
}

unfoldable pub init_mgmt_stateful_set : NvMesh → Workload → Ran (Result Body)
unfolding get_mgmt_image_from_resource keep_running_variable init_first_claim
init_mgmt_stateful_set cr w =
    if cr.spec.management.version == ""
    then returned (err (message "Missing Management Version (NVMesh.Spec.Management.Version)"))
    else then_init
        (first_container (mgmt_container cr)
          (record w { replicas = some cr.spec.management.replicas }))
        (init_first_claim cr cr.spec.management.backups_volume_claim)

abbrev pub mongo_container : NvMesh → Container → Container
mongo_container cr c = record c { image = get_core_full_image_name cr "nvmesh-mongo-instance" }

unfoldable pub init_mongo_stateful_set : NvMesh → Workload → Ran (Result Body)
unfolding get_core_full_image_name init_first_claim
init_mongo_stateful_set cr w =
    then_init (first_container (mongo_container cr) w)
      (init_first_claim cr cr.spec.management.mongo_db.data_volume_claim)

unfoldable pub init_mgmt_gui_service : NvMesh → ServiceSpec → ServiceSpec
init_mgmt_gui_service cr svc = elim cr.spec.management.external_ips [
  | none ↦ svc
  | some ips ↦ record svc { external_ips = some ips }
]

-- The switch of InitObject, on the type and the name.
unfoldable pub init_mgmt_body : NvMesh → (name : String) → Body → Ran (Result Body)
unfolding init_mgmt_stateful_set init_mongo_stateful_set init_config_map init_mgmt_gui_service
init_mgmt_body cr name (stateful_set w) =
    if name == "nvmesh-management"
    then init_mgmt_stateful_set cr w
    else if name == "mongo"
    then init_mongo_stateful_set cr w
    else unchanged (stateful_set w)
init_mgmt_body cr name (config_map fields) =
    unchanged
      (config_map (if name == "nvmesh-mgmt-config" then init_config_map cr fields else fields))
init_mgmt_body cr name (service svc) =
    unchanged
      (service (if name == "nvmesh-management-gui" then init_mgmt_gui_service cr svc else svc))
init_mgmt_body cr name b = unchanged b
