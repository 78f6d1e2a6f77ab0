-- ===== src/Core.antt =====
-- pkg/controllers/core_controller.go: the objects of NVMesh core. A text of lines `key=value` is read
-- into a map and written with its keys sorted; the maps of a config map are never nil.
pub mod Config
pub mod DaemonSets
pub mod Component
pub mod Settled
pub mod RoundTrip
use nvmesh_k8s_operator.Prelude.{
  ℕ, zero, suc, ◌+◌, String, Bool, true, false, Option, none, some, List, [], ◌∷◌, ◌++◌, concat,
  join, split, not, ◌||◌, ◌==◌, if◌then◌else◌, length, nat_eq,
}
use nvmesh_k8s_operator.Prelude.Dict.{Dict, get, put, has, get_text, keys}
use nvmesh_k8s_operator.Prelude.Decimal.{decimal}
use nvmesh_k8s_operator.Api.{NvMesh, ExcludeDrives, FileServerSpec}
use Prim.Native.String.{compare}
use Prim.Native.Nat.{Ordering}

-- `lineParts[0]` and `strings.Join(lineParts[1:], "=")`
abbrev pub key_value : List String → String × String
key_value [] = ("", "")
key_value (key ∷ parts) = (key, join "=" parts)

abbrev put_pair : Dict String → String × String → Dict String
put_pair d (k, v) = put d k v

unfoldable pub add_lines : Dict String → List String → Dict String
unfolding split join
add_lines d [] = d
add_lines d (line ∷ lines) = add_lines (put_pair d (key_value (split line "="))) lines

unfoldable pub config_string_to_dict : String → Dict String
unfolding add_lines split
config_string_to_dict conf = add_lines [] (split conf "\n")

-- sort.Strings
abbrev pub insert_key : String → List String → List String
insert_key k [] = k ∷ []
insert_key k (j ∷ sorted) = elim (compare k j) [
  | Ordering.gt ↦ j ∷ insert_key k sorted
  | _ ↦ k ∷ j ∷ sorted
]

unfoldable pub sort_keys : List String → List String
sort_keys [] = []
sort_keys (k ∷ l) = insert_key k (sort_keys l)

unfoldable pub config_lines : Dict String → List String → List String
config_lines d [] = []
config_lines d (k ∷ l) = concat (k ∷ "=" ∷ get_text d k ∷ []) ∷ config_lines d l

unfoldable pub config_dict_to_string : Dict String → String
unfolding join sort_keys config_lines
config_dict_to_string d = join "\n" (config_lines d (sort_keys (keys d)))

unfoldable pub servers_from : (namespace : String) → (i count : ℕ) → List String
unfolding decimal
servers_from namespace i zero = []
servers_from namespace i (suc count) =
    concat (
      "nvmesh-management-"
      ∷ decimal i
      ∷ ".nvmesh-management-ws."
      ∷ namespace
      ∷ ".svc.cluster.local:4001"
      ∷ [])
    ∷ servers_from namespace (suc i) count

unfoldable pub get_mgmt_servers_connection_string : NvMesh → String
unfolding servers_from join
get_mgmt_servers_connection_string cr =
    join "," (servers_from cr.meta.namespace 0 cr.spec.management.replicas)

-- nvmeshConfWrapWithQuotes
abbrev pub wrap_with_quotes : String → String
wrap_with_quotes value = concat ("\"" ∷ value ∷ "\"" ∷ [])

abbrev pub put_all : Dict String → Dict String → Dict String
put_all d [] = d
put_all d ((k, v) ∷ more) = put_all (put d k (wrap_with_quotes v)) more

abbrev exclusion : String → Option (List String) → Dict String
exclusion key none = []
exclusion key (some names) = (key, join "," names) ∷ []

abbrev exclusions : Option ExcludeDrives → Dict String
exclusions none = []
exclusions (some drives) =
    exclusion "EXCLUDE_DRIVE_SERIALS" drives.serial_numbers
    ++ exclusion "EXCLUDE_DEVICE_PATHS" drives.device_paths

-- The settings that the resource adds to nvmesh.conf, in the order in which they are written.
unfoldable pub dynamic_settings : NvMesh → Dict String
unfolding get_mgmt_servers_connection_string
dynamic_settings cr =
    ("MANAGEMENT_SERVERS", get_mgmt_servers_connection_string cr)
      ∷ (if cr.spec.core.tcp_only
          then ("IPV4_ONLY", "Yes")
            ∷ ("TCP_ENABLED", "Yes")
            ∷ ("CONFIGURED_NICS", cr.spec.core.configured_nics)
            ∷ []
          else [])
    ++ (if cr.spec.core.azure_optimized
        then ("CLOUD_OPTIMIZED", "Yes")
          ∷ ("TOMA_CLOUD_MODE", "Yes")
          ∷ ("AGENT_CLOUD_MODE", "Yes")
          ∷ []
        else [])
    ++ exclusions cr.spec.core.exclude_drives

abbrev format_bool : Bool → String
format_bool true = "true"
format_bool false = "false"

abbrev default_file_server_address : String
default_file_server_address = "https://repo.excelero.com/nvmesh/operator_binaries"

abbrev no_file_server : FileServerSpec
no_file_server = record { address = ""; skip_check_certificate = false }

abbrev file_server_options : NvMesh → FileServerSpec
file_server_options cr = elim cr.spec.operator.file_server [ none ↦ no_file_server | some o ↦ o ]

abbrev file_server_address : FileServerSpec → String
file_server_address o = if o.address == "" then default_file_server_address else o.address

unfoldable pub init_core_config_map : NvMesh → Dict String → Dict String
unfolding config_string_to_dict config_dict_to_string dynamic_settings
init_core_config_map cr fields =
    let options = file_server_options cr in
    let addressed = put fields "fileServer.address" (file_server_address options) in
    let checked =
      put addressed "fileServer.skipCheckCertificate"
        (format_bool options.skip_check_certificate) in
    let conf =
      put_all (config_string_to_dict (get_text checked "nvmesh.conf")) (dynamic_settings cr) in
    put (put checked "modprobe.d" cr.spec.core.module_params) "nvmesh.conf"
      (config_dict_to_string conf)

-- Whether a field of `expected` has another value in `current`.
unfoldable pub conf_differs : (expected current : Dict String) → Bool
conf_differs [] current = false
conf_differs ((k, v) ∷ expected) current =
    not (get_text current k == v) || conf_differs expected current

-- `if _, ok := expectedDict[field]; !ok { expectedDict[field] = currentDict[field] }`
unfoldable pub keep_added : (expected current : Dict String) → Dict String
keep_added expected [] = expected
keep_added expected ((k, v) ∷ current) =
    keep_added (if has expected k then expected else put expected k v) current

unfoldable pub should_update_nvmesh_conf : (expected current : String) → Bool × String
unfolding config_string_to_dict conf_differs keep_added config_dict_to_string
should_update_nvmesh_conf expected current =
    let e = config_string_to_dict expected in
    let c = config_string_to_dict current in
    (conf_differs e c, config_dict_to_string (keep_added e c))

-- One field of `shouldUpdateCoreConfigMap`: whether it is to be updated, and its new expected value.
unfoldable pub field_update : (field expected current : String) → Bool × String
unfolding should_update_nvmesh_conf
field_update field expected current =
    if field == "nvmesh.conf"
    then should_update_nvmesh_conf expected current
    else (not (expected == current), expected)

unfoldable pub should_update_core_config_map : (expected current : Dict String) → Bool × Dict String
unfolding field_update
should_update_core_config_map [] current = (false, [])
should_update_core_config_map ((field, value) ∷ expected) current =
    let (changed, value') = field_update field value (get_text current field) in
    let (others, expected') = should_update_core_config_map expected current in
    (changed || others, (field, value') ∷ expected')
