-- ===== src/Tests/Reconciler.antt =====
-- A reconciler in the small world, and resources for it.
use nvmesh_k8s_operator.Prelude.{true, false, none, some, [], ◌∷◌, refl}
use nvmesh_k8s_operator.Api.{NvMesh, empty_nvmesh}
use nvmesh_k8s_operator.Kube.{ok, err, message}
use nvmesh_k8s_operator.Operator.{Operator, Session, Retry, last, Mongo}
use nvmesh_k8s_operator.Finalizer.{cluster_finalizer_name}
use nvmesh_k8s_operator.Tests.World.{World, test_client, test_component}

-- A retry that makes one attempt.
abbrev pub once : {S : Type 0} → Retry S
once = record { run = λ f. f; runs = λ f s. last s refl }

abbrev test_mongo : Mongo World
test_mongo = record {
  connect = λ uri w. (none, w);
  find_one = λ collection w.
      ((record { auto_evict_missing_drive = true; auto_format_drive = true }, none), w);
  update_one = λ collection evict format w. (ok 1, w);
  disconnect = λ w. (tt, w);
}

abbrev pub test_operator : Operator World
test_operator = record {
  client = test_client;
  mongo = test_mongo;
  retry_status = once;
  retry_update = once;
  options = record { is_openshift = false; default_core_image_tag = "2.5"; development = false };
  mgmt = test_component;
  core = test_component;
  csi = test_component;
}

abbrev pub deleted_cr : NvMesh
deleted_cr = record empty_nvmesh {
  meta = record (empty_nvmesh.meta) {
    name = "cluster";
    namespace = "default";
    deletion_timestamp = some 1;
    finalizers = cluster_finalizer_name ∷ [];
  };
}

abbrev pub test_session : Session World
test_session = record { cr = deleted_cr; world = [] }

-- The label library's answer to a requirement Exists with a value.
abbrev pub refusing_operator : Operator World
refusing_operator = record test_operator {
  client = record test_client {
    exists_requirement =
        λ key values. err (message "values set must be empty for exists and does not exist");
  };
}
