-- ===== src/Operator.antt =====
-- The reconciler (NVMeshReconciler of pkg/controllers/nvmesh_controller.go): the services that it is
-- built with, the resource that a reconcile cycle works on, and actions on the two.
use nvmesh_k8s_operator.Prelude.{ℕ, String, Bool, true, Option, some, ◌≡◌}
use nvmesh_k8s_operator.Api.{NvMesh}
use nvmesh_k8s_operator.Kube.{Client, Act, Call, Ran, returned, Err, is_conflict, Result}
use nvmesh_k8s_operator.Objects.{Component}

-- operator_options.go
pub record OperatorOptions : Type 0 where
  pub is_openshift : Bool
  pub default_core_image_tag : String
  pub development : Bool

-- The resource of the cycle in memory, and the world outside.
pub record Session (W : Type 0) : Type 0 where
  pub cr : NvMesh
  pub world : W

-- The documented runs of `retry.RetryOnConflict`: the function is called, and called again after it
-- returned a conflict, as long as the steps of the back-off last.
pub data Retried {S : Type 0} (f : Act S (Option Err)) (r : Ran (Option Err) × S) : S → Type 0 where
  last : (s : S) → r ≡ f s → Retried f r s
  again :
      (s s' : S) (e : Err)
      → f s ≡ (returned (some e), s')
      → is_conflict e ≡ true
      → Retried f r s'
      → Retried f r s

-- `retry.RetryOnConflict` over the states that the two callers need.
pub record Retry (S : Type 0) : Type 0 where
  pub run : Act S (Option Err) → Act S (Option Err)
  pub runs : (f : Act S (Option Err)) (s : S) → Retried f (run f s) s

-- globalSettings.hidden in MongoDB, as far as the operator reads it
pub record HiddenSettings : Type 0 where
  pub auto_evict_missing_drive : Bool
  pub auto_format_drive : Bool

-- mongo.ErrNoDocuments, a topology.ServerSelectionError, or another error
pub data DbError : Type 0 where
  no_documents server_selection : DbError
  db_failed : Err → DbError

-- The MongoDB driver, on one collection of the management database.
pub record Mongo (W : Type 0) : Type 0 where
  pub connect : (uri : String) → Call W (Option Err)
  pub find_one : (collection : String) → Call W (HiddenSettings × Option DbError)
  -- UpdateOne with `$set` of the two settings: the count of matched documents
  pub update_one : (collection : String) → (evict format : Bool) → Call W (Result ℕ)
  pub disconnect : Call W (Unit {0})

pub record Operator (W : Type 0) : Type 0 where
  pub client : Client W
  pub mongo : Mongo W
  pub retry_status : Retry (Bool × Session W)
  pub retry_update : Retry W
  pub options : OperatorOptions
  pub mgmt : Component W
  pub core : Component W
  pub csi : Component W

module _ {W A : Type 0} where
  abbrev pub in_world : Ran A × W → NvMesh → Ran A × Session W
  in_world (r, w) cr = (r, record { cr = cr; world = w })

  -- An action on the world that may read the resource.
  abbrev pub with_cr : (NvMesh → Act W A) → Act (Session W) A
  with_cr m s = in_world (m s.cr s.world) s.cr

module _ {W : Type 0} where
  abbrev pub get_cr : Act (Session W) NvMesh
  get_cr s = (returned s.cr, s)

  abbrev pub modify_cr : (NvMesh → NvMesh) → Act (Session W) (Unit {0})
  modify_cr f s = (returned tt, record s { cr = f s.cr })

  -- A call that writes its answer into the resource.
  abbrev pub write_back : (Option Err × NvMesh) × W → Ran (Option Err) × Session W
  write_back ((e, cr), w) = (returned e, record { cr = cr; world = w })

  abbrev pub exchange : (NvMesh → Call W (Option Err × NvMesh)) → Act (Session W) (Option Err)
  exchange m s = write_back (m s.cr s.world)
