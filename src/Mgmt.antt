-- ===== src/Mgmt.antt =====
-- pkg/controllers/mgmt_controller.go: NVMesh management and its database. UpdateOne and FindOne of
-- pkg/mongoclient are read with it. What the component does with its objects is in the child Objects.
pub mod Settings
pub mod Json
pub mod Init
pub mod Objects
pub mod Settled
use nvmesh_k8s_operator.Prelude.{
  ℕ, zero, suc, String, Bool, true, false, Option, none, some, List, [], ◌∷◌, concat, not, ◌&&◌,
  ◌||◌, if◌then◌else◌, modify_at,
}
use nvmesh_k8s_operator.Prelude.Dict.{Dict, put}
use nvmesh_k8s_operator.Api.{NvMesh}
use nvmesh_k8s_operator.Kube.{
  Client, Act, pure, call, ◌>>=◌, ◌>>◌, Err, message, Result, ok, err, CtrlResult, Outcome,
  do_not_requeue, requeue_in, JobSpec, Container, Obj, Body, Workload, stateful_set,
}
use nvmesh_k8s_operator.Jobs.{get_new_job}
use nvmesh_k8s_operator.Jobs.Delete.{delete_job}
use nvmesh_k8s_operator.Resources.{create_objects_from_dir}
use nvmesh_k8s_operator.Operator.{
  Operator, HiddenSettings, DbError, no_documents, server_selection, db_failed, Mongo,
}
use nvmesh_k8s_operator.Uninstall.{
  not_again, remove_management, remove_mongo, mgmt_assets_location, mongo_db_assets_location,
}
use nvmesh_k8s_operator.Uninstall.Jobs.{create_job, get_mongo_connection_string}

abbrev pub init_db_job_name : String
init_db_job_name = "mgmt-init-db"

-- getMgmtImageFromResource
unfoldable pub get_mgmt_image_from_resource : NvMesh → String
get_mgmt_image_from_resource cr =
    concat
      (cr.spec.management.image_registry ∷ "/nvmesh-management:" ∷ cr.spec.management.version ∷ [])

unfoldable pub get_mongo_uri : NvMesh → String
unfolding get_mongo_connection_string
get_mongo_uri cr = concat ("mongodb://" ∷ get_mongo_connection_string cr ∷ [])

abbrev init_db_container : NvMesh → Container → Container
init_db_container cr c = record c {
  command = "mongo" ∷ [];
  args =
      concat (get_mongo_connection_string cr ∷ "/management" ∷ [])
      ∷ "/opt/NVMesh/management/initDB.js"
      ∷ [];
}

unfoldable pub init_db_job : NvMesh → JobSpec
unfolding get_new_job get_mgmt_image_from_resource get_mongo_connection_string
init_db_job cr =
    let job = get_new_job cr init_db_job_name (get_mgmt_image_from_resource cr) in
    record job {
      backoff_limit = 1;
      template = record (job.template) {
        containers = modify_at job.template.containers 0 (init_db_container cr);
      };
    }

-- `ss.Spec.Template.Annotations[…] = …`, on a StatefulSet
abbrev annotate : String → Body → Body
annotate time (stateful_set w) =
    stateful_set
      (record w { annotations = put w.annotations "operator.nvmesh.excelero.com/restartedAt" time })
annotate time b = b

abbrev pub restarted : (time : String) → Obj → Obj
restarted time ss = record ss { body = annotate time ss.body }

-- The two settings that the resource wants are the negations of its switches.
abbrev pub wanted : NvMesh → HiddenSettings
wanted cr = record {
  auto_evict_missing_drive = not cr.spec.management.disable_auto_evict_missing_drives;
  auto_format_drive = not cr.spec.management.disable_auto_format_drives;
}

abbrev differs : Bool → Bool → Bool
differs true b = not b
differs false b = b

-- The test of `handleDBManipulations` on the settings that were found.
unfoldable pub is_outdated : NvMesh → HiddenSettings → Bool
is_outdated cr found =
    differs cr.spec.management.disable_auto_format_drives (not found.auto_format_drive)
    || differs cr.spec.management.disable_auto_evict_missing_drives
        (not found.auto_evict_missing_drive)

module _ {W : Type 0} (op : Operator W) where
  -- the closure of `restartStatefulSet` in ctrl_utils.go
  unfoldable pub restart_attempt : (namespace name : String) → Act W (Option Err)
  restart_attempt namespace name = do
    r ← call (op.client.get_object "StatefulSet" namespace name)
    elim r [
      | err e ↦ pure (some e)
      | ok ss ↦ do time ← call op.client.now_text; call (op.client.update (restarted time ss))
    ]

  unfoldable pub restart_management : (namespace : String) → Act W (Option Err)
  unfolding restart_attempt
  restart_management namespace = op.retry_update.run (restart_attempt namespace "nvmesh-management")

  -- mongoclient.UpdateOne: no matching document is an error.
  unfoldable pub update_one : HiddenSettings → Act W (Option Err)
  update_one settings = do
    r ← call (
        op.mongo.update_one "globalSettings" settings.auto_evict_missing_drive
          settings.auto_format_drive)
    elim r [
      | err e ↦ pure (some e)
      | ok zero ↦
          pure
            (some (message "Failed to update document in collection globalSettings and filter []"))
      | ok (suc _) ↦ pure none
    ]

  unfoldable pub update_settings : NvMesh → Act W (Option DbError)
  unfolding update_one restart_management
  update_settings cr = do
    e ← update_one (wanted cr)
    elim e [
      | some x ↦ pure (
          some (
            db_failed
              (Err.wrap x "Failed to update autoEvictDrives & autoFormatDrives in MongoDB")))
      | none ↦ restart_management cr.meta.namespace >> pure none
    ]

  unfoldable pub settings_found : NvMesh → HiddenSettings × Option DbError → Act W (Option DbError)
  unfolding delete_job is_outdated update_settings
  settings_found cr (found, some e) = pure (some e)
  settings_found cr (found, none) = do
    _ ← delete_job op.client cr.meta.namespace init_db_job_name
    if is_outdated cr found then update_settings cr else pure none

  unfoldable pub mongo_uri : NvMesh → String
  unfolding get_mongo_uri
  mongo_uri cr = if op.options.development then "mongodb://localhost:27017" else get_mongo_uri cr

  unfoldable pub connected : NvMesh → Option Err → Act W (Option DbError)
  unfolding settings_found
  connected cr (some e) = pure (some (db_failed (Err.wrap e "Failed to connect to MongoDB")))
  connected cr none = do
    found ← call (op.mongo.find_one "globalSettings")
    e ← settings_found cr found
    _ ← call op.mongo.disconnect
    pure e

  unfoldable pub handle_db_manipulations : NvMesh → Act W (Option DbError)
  unfolding mongo_uri connected
  handle_db_manipulations cr = call (op.mongo.connect (mongo_uri cr)) >>= connected cr

  unfoldable pub run_mgmt_init_db_job : NvMesh → Act W (Option Err)
  unfolding init_db_job
  run_mgmt_init_db_job cr =
      create_job op.client cr init_db_job_name (init_db_job cr) (λ _. "Failed to create iniDB job")

  unfoldable pub deploy_mongo_db : NvMesh → Act W (Option Err)
  unfolding create_objects_from_dir
  deploy_mongo_db cr = create_objects_from_dir op.client cr op.mgmt mongo_db_assets_location false

  unfoldable pub deploy_management : NvMesh → Act W (Option Err)
  unfolding create_objects_from_dir
  deploy_management cr = create_objects_from_dir op.client cr op.mgmt mgmt_assets_location true

  -- What `Reconcile` does with the outcome of the database.
  unfoldable pub database_answered : NvMesh → Option DbError → Act W Outcome
  unfolding run_mgmt_init_db_job deploy_management
  database_answered cr none = not_again (deploy_management cr)
  database_answered cr (some no_documents) = run_mgmt_init_db_job cr >>= λ e. pure (requeue_in 3, e)
  database_answered cr (some server_selection) = pure (requeue_in 5, none)
  database_answered cr (some (db_failed e)) = pure (requeue_in 1, some e)

  unfoldable pub mongo_ready : NvMesh → Option Err → Act W Outcome
  unfolding remove_management handle_db_manipulations database_answered
  mongo_ready cr (some e) = pure (requeue_in 1, some e)
  mongo_ready cr none =
      if cr.spec.management.disabled
      then not_again (remove_management op cr)
      else (handle_db_manipulations cr >>= database_answered cr)

  unfoldable pub reconcile_management : NvMesh → Act W Outcome
  unfolding deploy_mongo_db remove_mongo mongo_ready
  reconcile_management cr =
      (if not cr.spec.management.disabled && not cr.spec.management.mongo_db.external
        then deploy_mongo_db cr
        else remove_mongo op cr)
      >>= mongo_ready cr
