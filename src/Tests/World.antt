-- ===== src/Tests/World.antt =====
-- A small API server: the world is the list of the stored objects, and every call is answered at once.
use nvmesh_k8s_operator.Prelude.{
  String, Bool, true, false, Option, none, some, List, [], ◌∷◌, ◌==◌, ◌&&◌, ◌≡◌, refl, arith,
  eq_iff, if◌then◌else◌, first, any, select, not, sym, ap,
}
use nvmesh_k8s_operator.Api.{empty_nvmesh}
use nvmesh_k8s_operator.Kube.{
  Client, pure, Ran, returned, Result, ok, err, Err, api, not_found, Obj, kind_of, config_map, Job,
  Pod, Node,
}
use nvmesh_k8s_operator.Jobs.{get_new_job}
use nvmesh_k8s_operator.Objects.{Component, object_namespace}
use nvmesh_k8s_operator.Objects.Quiet.{Quiet, IsWellBehaved, FixedFiles}

abbrev pub World : Type 0
World = List Obj

abbrev is_at : (kind namespace name : String) → Obj → Bool
is_at kind namespace name o = kind_of o.body == kind && o.namespace == namespace && o.name == name

unfoldable pub stored : World → (kind namespace name : String) → Bool
stored w kind namespace name = any (is_at kind namespace name) w

abbrev answer : Option Obj → Result Obj
answer none = err (api not_found "not found")
answer (some o) = ok o

unfoldable pub look_up : World → (kind namespace name : String) → Result Obj
look_up w kind namespace name = answer (first (is_at kind namespace name) w)

unfoldable pub without : World → (kind namespace name : String) → World
without w kind namespace name = select (λ o. not (is_at kind namespace name o)) w

unfoldable pub with_object : World → Obj → World
with_object w o = record o { namespace = object_namespace (kind_of o.body) o.namespace } ∷ w

abbrev pub finished_job : (name : String) → Job
finished_job name = record {
  name = name;
  spec = get_new_job empty_nvmesh name "image";
  status = record { failed = 0; succeeded = 1; active = 0; conditions = [] };
}

abbrev pub node_a : Node
node_a = record { name = "node.a"; labels = [] }

abbrev pub pod_a : Pod
pod_a = record { name = "pod-a"; namespace = "default" }

abbrev pub settings_map : Obj
settings_map = record {
  name = "settings";
  namespace = "default";
  labels = [];
  owner = none;
  body = config_map (("key", "value") ∷ []);
}

unfoldable pub decode_document : String → Option Obj × Option Err
decode_document document =
    if document == "settings"
    then (some settings_map, none)
    else (none, some (api not_found "no kind"))

unfoldable pub file_contents : String → Result String
file_contents name =
    if name == "resources/settings.yaml" then ok "settings" else err (api not_found "no such file")

abbrev pub test_client : Client World
test_client = record {
  get_object = λ k ns n w. (look_up w k ns n, w);
  create = λ o w. (none, with_object w o);
  update = λ o w. (none, w);
  delete = λ k ns n w. (none, without w k (object_namespace k ns) n);
  get_job = λ ns n w. (ok (finished_job n), w);
  list_pods = λ key values w. (ok [], w);
  list_all_pods = λ ns w. (ok [], w);
  list_nodes = λ key value w. (ok (node_a ∷ []), w);
  list_volume_attachments = λ w. (ok [], w);
  list_persistent_volumes = λ w. (ok [], w);
  exists_requirement = λ key values. ok key;
  list_claims = λ label w. (ok [], w);
  get_nvmesh = λ ns n w. (err (api not_found "not found"), w);
  update_nvmesh = λ cr w. ((none, cr), w);
  update_nvmesh_status = λ cr w. ((none, cr), w);
  read_file = λ f w. (file_contents f, w);
  read_dir = λ dir w. (ok [], w);
  walk = λ root w. (("resources", some true) ∷ ("resources/settings.yaml", some false) ∷ [], w);
  decode = decode_document;
  record_warning = λ reason text w. (tt, w);
  now = λ w. (7, w);
  now_text = λ w. ("2021-01-01T00:00:00Z", w);
}

pub found_stored :
    (w : World) (kind namespace name : String) (o : Obj)
    → look_up w kind namespace name ≡ ok o
    → stored w kind namespace name ≡ true
unfolding look_up stored
found_stored [] kind namespace name o h = ground arith
found_stored (p ∷ w) kind namespace name o h = ground (arith, found_stored w kind namespace name o)

pub missing_stored :
    (w : World) (kind namespace name : String) (e : Err)
    → look_up w kind namespace name ≡ err e
    → stored w kind namespace name ≡ false
unfolding look_up stored
missing_stored [] kind namespace name e h = refl
missing_stored (p ∷ w) kind namespace name e h =
    ground (arith, missing_stored w kind namespace name e)

created_stored :
    (w : World) (o : Obj)
    → stored
        (with_object w o)
        (kind_of o.body)
        (object_namespace (kind_of o.body) o.namespace)
        o.name
      ≡ true
unfolding with_object stored
created_stored w o = ground (
  arith,
  eq_iff (kind_of o.body) (kind_of o.body),
  eq_iff o.name o.name,
  eq_iff (object_namespace (kind_of o.body) o.namespace)
      (object_namespace (kind_of o.body) o.namespace),
)

stored_created :
    (w : World) (o : Obj) (kind namespace name : String)
    → stored w kind namespace name ≡ true
    → stored (with_object w o) kind namespace name ≡ true
unfolding with_object stored
stored_created w o kind namespace name h = ground (arith, h)

pub deleted_stored :
    (w : World) (kind namespace name : String)
    → stored (without w kind namespace name) kind namespace name ≡ false
unfolding without stored
deleted_stored [] kind namespace name = refl
deleted_stored (p ∷ w) kind namespace name = ground (arith, deleted_stored w kind namespace name)

any-select : (p q : Obj → Bool) (w : World) → any p w ≡ false → any p (select q w) ≡ false
any-select p q [] h = refl
any-select p q (o ∷ w) h = ground (arith, any-select p q w)

pub gone_deleted :
    (w : World) (k n s kind namespace name : String)
    → stored w kind namespace name ≡ false
    → stored (without w k n s) kind namespace name ≡ false
unfolding without stored
gone_deleted w k n s kind namespace name h =
    any-select (is_at kind namespace name) (λ o. not (is_at k n s o)) w h

abbrev object_of : Ran (Result Obj) → Obj
object_of (returned (ok o)) = o
object_of _ = settings_map

abbrev kind_at : Ran (Result Obj) → String
kind_at r = kind_of (object_of r).body

abbrev namespace_at : Ran (Result Obj) → String
namespace_at r = (object_of r).namespace

abbrev name_at : Ran (Result Obj) → String
name_at r = (object_of r).name

pub test_quiet : Quiet test_client
test_quiet = record {
  exists = stored;
  live = stored;
  get_found = λ k ns n w o h. found_stored w k ns n o h;
  get_missing = λ k ns n w e h missing. missing_stored w k ns n e h;
  get_keeps = λ k ns n w k' ns' n' h. h;
  get_keeps_dead = λ k ns n w k' ns' n' h. h;
  create_creates = λ o w h. created_stored w o;
  create_already = λ o w e h already. created_stored w o;
  create_keeps = λ o w k ns n h. stored_created w o k ns n h;
  update_keeps = λ o w k ns n h. h;
  clock_keeps = λ w k ns n h. h;
  delete_deletes = λ k ns n w h. deleted_stored w k (object_namespace k ns) n;
  delete_keeps_dead =
      λ k ns n w k' ns' n' h. gone_deleted w k (object_namespace k ns) n k' ns' n' h;
}

abbrev pub test_component : Component World
test_component = record {
  init_object = λ cr o. returned (ok o);
  should_update_object = λ cr expected found. pure (false, expected);
}

key :
    (o o' : Obj)
    → ◌≡◌ {A = Ran (Result Obj)} (returned (ok o)) (returned (ok o'))
    → (kind_of o'.body ≡ kind_of o.body) × (o'.namespace ≡ o.namespace) × (o'.name ≡ o.name)
key o o' h = (sym (ap kind_at h), sym (ap namespace_at h), sym (ap name_at h))

pub test_component-IsWellBehaved : IsWellBehaved test_quiet test_component
test_component-IsWellBehaved = record {
  init_keeps_key = λ cr o o' h. key o o' h;
  compare_keeps = λ cr expected found w k ns n h. h;
}

pub test_files : FixedFiles test_quiet
test_files = record {
  contents = file_contents;
  read_same = λ f w. refl;
  read_keeps = λ f w k ns n h. h;
  walk_keeps = λ root w k ns n h. h;
}
