-- ===== src/Slices.antt =====
-- The helpers on slices of strings: `containsString` and `removeString` of finalizer.go,
-- `stringInSlice` of ctrl_utils.go, `sanitizeString` of nvmesh_actions.go and
-- `isStringArraysEqualElements` of mgmt_controller.go, all under pkg/controllers.
pub mod Membership
pub mod SameElements
use nvmesh_k8s_operator.Prelude.{
  String, Bool, true, false, Option, none, some, List, [], ◌∷◌, ◌==◌, if◌then◌else◌, replace_all,
}
use nvmesh_k8s_operator.Prelude.Dict.{Dict, get, put, has}

unfoldable pub contains_string : List String → String → Bool
contains_string [] s = false
contains_string (item ∷ slice) s = if item == s then true else contains_string slice s

unfoldable pub string_in_slice : String → List String → Bool
string_in_slice a [] = false
string_in_slice a (b ∷ list) = if b == a then true else string_in_slice a list

unfoldable pub remove_string : List String → String → List String
remove_string [] s = []
remove_string (item ∷ slice) s =
    let rest = remove_string slice s in if item == s then rest else item ∷ rest

unfoldable pub sanitize_string : String → String
unfolding replace_all
sanitize_string s = replace_all "." "-" s

-- the first loop of `isStringArraysEqualElements`: every item of `a`, not found yet
unfoldable pub mark_missing : List String → Dict Bool → Dict Bool
mark_missing [] dict = dict
mark_missing (key ∷ a) dict = mark_missing a (put dict key false)

-- the second loop, with `none` for its `return false`
unfoldable pub mark_found : List String → Dict Bool → Option (Dict Bool)
mark_found [] dict = some dict
mark_found (key ∷ b) dict =
    let rest = mark_found b (put dict key true) in if has dict key then rest else none

-- the third loop
unfoldable pub all_found : Dict Bool → Bool
all_found [] = true
all_found ((_, val) ∷ dict) = let rest = all_found dict in if val then rest else false

unfoldable pub is_string_arrays_equal_elements : List String → List String → Bool
unfolding mark_missing mark_found all_found
is_string_arrays_equal_elements a b = elim (mark_found b (mark_missing a [])) [
  | none ↦ false
  | some dict ↦ all_found dict
]
