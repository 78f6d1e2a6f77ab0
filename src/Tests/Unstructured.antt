-- ===== src/Tests/Unstructured.antt =====
-- Unstructured objects in the small world: every one is stored under its mapping as its kind.
use nvmesh_k8s_operator.Prelude.{String, true, none, some, [], ◌∷◌, ◌≡◌, refl}
use nvmesh_k8s_operator.Kube.{Obj, Result, ok, err, api, not_found, other}
use nvmesh_k8s_operator.Unstructured.Types.{
  GroupVersionKind, OwnerReference, Unstructured, Dynamic, Mapping,
}
use nvmesh_k8s_operator.Unstructured.Owners.{add_owner_reference}
use nvmesh_k8s_operator.Unstructured.Owners.Laws.{others, reference_to, add_owner_reference-puts}
use nvmesh_k8s_operator.Unstructured.Documented.{Documented}
use nvmesh_k8s_operator.Unstructured.{Watching}
use nvmesh_k8s_operator.Tests.World.{World, look_up, without}

abbrev database_kind : GroupVersionKind
database_kind = record { group = "mongodb.com"; version = "v1"; kind = "MongoDB" }

abbrev database : Unstructured
database = record { name = "mongo"; owner_references = []; content = "members: 3" }

abbrev object_at : Mapping → String → Unstructured → Obj
object_at mapping namespace o = record {
  name = o.name;
  namespace = namespace;
  labels = [];
  owner = none;
  body = other mapping o.content;
}

abbrev found : Result Obj → Result Unstructured
found (ok o) = ok (record { name = o.name; owner_references = []; content = "" })
found (err e) = err e

abbrev test_dynamic : Dynamic World
test_dynamic = record {
  parse_group = λ api_version. ok api_version;
  group_version = λ group version. group;
  decode = λ yaml. ok (database, database_kind);
  encode = λ o. o.content;
  new_discovery_client = λ w. (none, w);
  rest_mapping = λ gvk w. (ok gvk.kind, w);
  watch = λ m ns selector w. (ok 1, w);
  get = λ m ns n w. (found (look_up w m ns n), w);
  create = λ m ns o w. (none, object_at m ns o ∷ w);
  delete = λ m ns n w. (none, without w m ns n);
  stop = λ watcher w. (tt, w);
}

abbrev nothing_watched : Watching World
nothing_watched = record { watchers = []; world = [] }

abbrev owner_of : (kind name : String) → OwnerReference
owner_of kind name = record {
  api_version = "nvmesh.excelero.com/v1";
  kind = kind;
  name = name;
  uid = "7";
  block_owner_deletion = some true;
  controller = some true;
}

abbrev owned : Unstructured
owned = record database {
  owner_references = owner_of "Backup" "daily" ∷ owner_of "MongoDB" "cluster" ∷ [];
}

add_owner_reference-puts_example :
    (others test_dynamic
        (owner_of "MongoDB" "cluster")
        (add_owner_reference test_dynamic (owner_of "MongoDB" "cluster") owned).owner_references
      ≡ others test_dynamic (owner_of "MongoDB" "cluster") owned.owner_references)
    × (reference_to test_dynamic
          (owner_of "MongoDB" "cluster")
          (add_owner_reference test_dynamic (owner_of "MongoDB" "cluster") owned).owner_references
        ≡ some (owner_of "MongoDB" "cluster"))
    × (add_owner_reference test_dynamic
          (owner_of "MongoDB" "cluster")
          (add_owner_reference test_dynamic (owner_of "MongoDB" "cluster") owned)
        ≡ add_owner_reference test_dynamic (owner_of "MongoDB" "cluster") owned)
add_owner_reference-puts_example =
    add_owner_reference-puts test_dynamic (owner_of "MongoDB" "cluster") owned
      "nvmesh.excelero.com/v1" refl
