-- ===== src/Slices/Membership.antt =====
-- `removeString` takes out every copy of one string and nothing else.
use nvmesh_k8s_operator.Prelude.{
  String, false, List, [], ◌∷◌, ◌++◌, ◌==◌, if◌then◌else◌, ◌≡◌, refl, arith, eq_iff, ◌||◌,
}
use nvmesh_k8s_operator.Slices.{contains_string, string_in_slice, remove_string}

-- After `removeString` the string is not found, and every other string is found as before.
pub contains-remove_string :
    (slice : List String) (s t : String)
    → contains_string (remove_string slice s) t
      ≡ (if s == t then false else contains_string slice t)
unfolding contains_string remove_string
contains-remove_string [] s t = ground arith
contains-remove_string (item ∷ slice) s t =
    ground (arith, contains-remove_string slice s t, eq_iff item s, eq_iff item t, eq_iff s t)

pub contains-append :
    (xs ys : List String) (t : String)
    → contains_string (xs ++ ys) t ≡ (contains_string xs t || contains_string ys t)
unfolding contains_string
contains-append [] ys t = refl
contains-append (x ∷ xs) ys t = ground (arith, contains-append xs ys t)

pub string_in_slice-contains :
    (a : String) (list : List String) → string_in_slice a list ≡ contains_string list a
unfolding string_in_slice contains_string
string_in_slice-contains a [] = refl
string_in_slice-contains a (b ∷ list) = ground (arith, string_in_slice-contains a list)
