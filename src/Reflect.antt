-- ===== src/Reflect.antt =====
-- pkg/reflectutils/object_json_path.go: the fields of two Go values at a path are compared. A value
-- is what package reflect shows of it.
pub mod Compare
pub mod Workloads
use Prim.Native.Nat.{◌^◌}
use Prim.Native.Char.{code}
use Prim.Native.String.{slice as sub_text, len}
use nvmesh_k8s_operator.Prelude.{
  ℕ, zero, suc, ◌+◌, ◌-◌, ◌*◌, String, Bool, true, false, Option, none, some, List, [], ◌∷◌, not,
  ◌&&◌, ◌||◌, ◌==◌, if◌then◌else◌, ltb, leb, nat_eq, concat, split, length,
}
use nvmesh_k8s_operator.Kube.{Ran, returned, panicked, Err, message, Result, ok, err}

-- A Go value with its type's name. A pointer has an address; `invalid` is the zero reflect.Value, which
-- Elem() answers for a nil pointer. A struct has its fields in order, a slice its elements.
mutual
  pub data Value : Type 0 where
    invalid : Value
    text : (type contents : String) → Value
    number : (type : String) → ℕ → Value
    nil : (type : String) → Value
    pointer : (type : String) → (address : ℕ) → Value → Value
    struct : (type : String) → Fields → Value
    slice : (type : String) → Elements → Value

  pub data Fields : Type 0 where
    no_field : Fields
    field : (name : String) → Value → Fields → Fields

  pub data Elements : Type 0 where
    no_element : Elements
    element : Value → Elements → Elements

-- Type().String(): the zero Value has no type and panics.
abbrev type_of : Value → Ran String
type_of invalid = panicked
type_of (text type _) = returned type
type_of (number type _) = returned type
type_of (nil type) = returned type
type_of (pointer type _ _) = returned type
type_of (struct type _) = returned type
type_of (slice type _) = returned type

-- `if v.Kind() == reflect.Ptr { v = v.Elem() }`
abbrev pub elem : Value → Value
elem (nil _) = invalid
elem (pointer _ _ v) = v
elem v = v

abbrev field_by_name : Fields → String → Option Value
field_by_name no_field name = none
field_by_name (field n v fields) name = if n == name then some v else field_by_name fields name

abbrev no_such_field : String → Err
no_such_field name = message (concat ("Object does not have a field " ∷ name ∷ []))

abbrev found_field : String → Option Value → Result Value
found_field name none = err (no_such_field name)
found_field name (some v) = ok v

-- Type().FieldByName panics unless the value is a struct.
unfoldable pub get_prop : Value → String → Ran (Result Value)
get_prop (struct _ fields) name = returned (found_field name (field_by_name fields name))
get_prop _ name = panicked

abbrev element_at : Elements → ℕ → Ran Value
element_at no_element i = panicked
element_at (element v elements) zero = returned v
element_at (element v elements) (suc i) = element_at elements i

-- Index(i), which panics out of range and, as no array or text is indexed here, on all but slices
abbrev index_of : Value → ℕ → Ran Value
index_of (slice _ elements) i = element_at elements i
index_of _ i = panicked

abbrev is_digit : ℕ → Bool
is_digit c = leb 48 c && leb c 57

abbrev with_digit : ℕ → Option (List ℕ) → Option (List ℕ)
with_digit d none = none
with_digit d (some digits) = some (d ∷ digits)

-- The digits that follow an opening bracket up to a closing one.
unfoldable pub bracketed : String → Option (List ℕ)
bracketed String.[] = none
bracketed (String.◌∷◌ c s) =
    let rest = bracketed s in
    if nat_eq (code c) 93
    then some []
    else if is_digit (code c)
    then with_digit (code c - 48) rest
    else none

abbrev or_later : Option (List ℕ) → Option (List ℕ) → Option (List ℕ)
or_later none later = later
or_later (some digits) later = some digits

-- The first match of `\[\d*\]` in a part of a path, as its digits.
unfoldable pub find_index : String → Option (List ℕ)
unfolding bracketed
find_index String.[] = none
find_index (String.◌∷◌ c s) =
    let later = find_index s in if nat_eq (code c) 91 then or_later (bracketed s) later else later

-- The number that digits spell in a base, after what was read before.
unfoldable pub read_digits : (base before : ℕ) → List ℕ → Option ℕ
read_digits base n [] = some n
read_digits base n (d ∷ digits) =
    let rest = read_digits base (n * base + d) digits in if ltb d base then rest else none

-- ParseInt(digits, 0, 32): a leading zero makes the number octal.
unfoldable pub parse_digits : List ℕ → Option ℕ
unfolding read_digits
parse_digits [] = none
parse_digits (zero ∷ digits) = read_digits 8 0 digits
parse_digits (suc d ∷ digits) = read_digits 10 0 (suc d ∷ digits)

abbrev in_int32 : Option ℕ → Result ℕ
in_int32 none = err (message "strconv.ParseInt: invalid syntax")
in_int32 (some n) =
    if ltb n (2 ^ 31) then ok n else err (message "strconv.ParseInt: value out of range")

-- A part of a path: the field's name, and the index if there is one.
abbrev part_of : String → Option (List ℕ) → Result (String × Option ℕ)
part_of part none = ok (part, none)
part_of part (some digits) = elim (in_int32 (parse_digits digits)) [
  | err e ↦ err e
  | ok i ↦ ok (sub_text part 0 (len part - (length digits + 2)), some i)
]

unfoldable pub read_part : String → Result (String × Option ℕ)
unfolding find_index parse_digits
read_part part = part_of part (find_index part)

abbrev step_to : Option ℕ → Value → Ran Value
step_to none v = returned v
step_to (some i) v = index_of v i

-- The message also prints the object.
abbrev wrong_path : (name path : String) → Err
wrong_path name path =
    message (concat ("Object does not have field " ∷ name ∷ " in the path " ∷ path ∷ []))

abbrev stepped : (name path : String) → Option ℕ → Ran (Result Value) → Ran (Result Value)
stepped name path index panicked = panicked
stepped name path index (returned (err _)) = returned (err (wrong_path name path))
stepped name path index (returned (ok v)) = elim (step_to index v) [
  | panicked ↦ panicked
  | returned v' ↦ returned (ok v')
]

-- One round of the loop over the path's parts.
unfoldable pub walk_part : (path part : String) → Value → Ran (Result Value)
unfolding read_part get_prop
walk_part path part v = elim (read_part part) [
  | err e ↦ returned (err e)
  | ok (name, index) ↦ stepped name path index (get_prop (elem v) name)
]

-- The loop; `path` is the path up to here.
unfoldable pub walk_parts : (path : String) → List String → Value → Ran (Result Value)
unfolding walk_part
walk_parts path [] v = returned (ok v)
walk_parts path (part ∷ parts) v =
    let path' = concat (path ∷ "." ∷ part ∷ []) in
    elim (walk_part path' part v) [
      | panicked ↦ panicked
      | returned (err e) ↦ returned (err e)
      | returned (ok v') ↦ walk_parts path' parts v'
    ]

abbrev end_of_path : Ran (Result Value) → Ran (Result Value)
end_of_path (returned (ok v)) = returned (ok (elem v))
end_of_path (returned (err e)) = returned (err e)
end_of_path panicked = panicked

unfoldable pub get_prop_at_path : Value → (path : String) → Ran (Result Value)
unfolding split walk_parts
get_prop_at_path v path = end_of_path (walk_parts "" (split path ".") v)
