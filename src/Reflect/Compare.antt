-- ===== src/Reflect/Compare.antt =====
-- The comparisons of pkg/reflectutils/object_json_path.go.
use nvmesh_k8s_operator.Prelude.{
  String, Bool, true, false, Option, none, some, List, [], ◌∷◌, not, ◌&&◌, ◌==◌, if◌then◌else◌,
  nat_eq,
}
use nvmesh_k8s_operator.Kube.{Ran, returned, panicked, Err, Result, ok, err}
use nvmesh_k8s_operator.Reflect.{
  Value, text, number, nil, pointer, struct, slice, Fields, no_field, field, type_of,
  get_prop_at_path,
}

-- Whether Go's `==` is defined on the values of the type: not on slices, nor on structs that hold one.
unfoldable mutual
  pub is_comparable : Value → Bool
  is_comparable (slice _ _) = false
  is_comparable (struct _ fields) = are_comparable fields
  is_comparable _ = true

  pub are_comparable : Fields → Bool
  are_comparable no_field = true
  are_comparable (field _ v fields) = is_comparable v && are_comparable fields

-- Go's `==` on two comparable values of one type.
unfoldable mutual
  pub are_same : Value → Value → Bool
  are_same (text _ s) (text _ t) = s == t
  are_same (number _ m) (number _ n) = nat_eq m n
  are_same (nil _) (nil _) = true
  are_same (pointer _ a _) (pointer _ b _) = nat_eq a b
  are_same (struct _ fs) (struct _ gs) = are_same_fields fs gs
  are_same _ _ = false

  pub are_same_fields : Fields → Fields → Bool
  are_same_fields no_field no_field = true
  are_same_fields (field _ v fs) (field _ w gs) = are_same v w && are_same_fields fs gs
  are_same_fields _ _ = false

-- `value1.Type() != value2.Type() || value1.Interface() != value2.Interface()`, negated
unfoldable pub values_equal : Value → Value → Ran Bool
unfolding is_comparable are_same
values_equal v w = elim (type_of v) [
  | panicked ↦ panicked
  | returned s ↦ elim (type_of w) [
    | panicked ↦ panicked
    | returned t ↦
        if not (s == t)
        then returned false
        else if is_comparable v
        then returned (are_same v w)
        else panicked
  ]
]

-- The values stand in the result for the log alone.
pub record CompareFieldsResult : Type 0 where
  pub equals : Bool
  pub path : String
  pub value1 : Option Value
  pub value2 : Option Value

abbrev pub no_result : CompareFieldsResult
no_result = record { equals = false; path = ""; value1 = none; value2 = none }

abbrev pub all_equal : CompareFieldsResult
all_equal = record { equals = true; path = ""; value1 = none; value2 = none }

abbrev compared : Value → Value → String → Bool → CompareFieldsResult
compared v w path true = all_equal
compared v w path false = record { equals = false; path = path; value1 = some v; value2 = some w }

abbrev pub Comparison : Type 0
Comparison = Option Err × CompareFieldsResult

abbrev judge : String → Value → Value → Ran Comparison
judge path v w = elim (values_equal v w) [
  | panicked ↦ panicked
  | returned b ↦ returned (none, compared v w path b)
]

abbrev second : String → Value → Ran (Result Value) → Ran Comparison
second path v panicked = panicked
second path v (returned (err e)) = returned (some e, no_result)
second path v (returned (ok w)) = judge path v w

abbrev first : String → Value → Ran (Result Value) → Ran Comparison
first path obj2 panicked = panicked
first path obj2 (returned (err e)) = returned (some e, no_result)
first path obj2 (returned (ok v)) = second path v (get_prop_at_path obj2 path)

unfoldable pub compare_objects_at_json_path : Value → Value → (path : String) → Ran Comparison
unfolding get_prop_at_path values_equal
compare_objects_at_json_path obj1 obj2 path = first path obj2 (get_prop_at_path obj1 path)

-- What follows the comparison at one path: an error or a difference ends the loop.
unfoldable pub or_next : Ran Comparison → Ran Comparison → Ran Comparison
or_next panicked next = panicked
or_next (returned (some e, result)) next = returned (some e, result)
or_next (returned (none, result)) next = if result.equals then next else returned (none, result)

unfoldable pub compare_fields_in_two_objects :
    Value → Value → (field_paths : List String) → Ran Comparison
unfolding compare_objects_at_json_path or_next
compare_fields_in_two_objects obj1 obj2 [] = returned (none, all_equal)
compare_fields_in_two_objects obj1 obj2 (path ∷ paths) =
    or_next (compare_objects_at_json_path obj1 obj2 path)
      (compare_fields_in_two_objects obj1 obj2 paths)
