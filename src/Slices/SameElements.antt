-- ===== src/Slices/SameElements.antt =====
-- `isStringArraysEqualElements` compares two slices as sets.
use nvmesh_k8s_operator.Prelude.{
  String, Bool, true, false, Option, none, some, List, [], ◌∷◌, ◌==◌, if◌then◌else◌, ◌≡◌, ◌≢◌, ◌↔◌,
  inl, inr, refl, ◌∙◌, subst, arith, eq_iff, eq_refl, Bool-cases, Option-cases,
}
use nvmesh_k8s_operator.Prelude.Dict.{Dict, get, put, has, get-put}
use nvmesh_k8s_operator.Slices.{
  contains_string, mark_missing, mark_found, all_found, is_string_arrays_equal_elements,
}

get-mark_missing :
    (a : List String) (dict : Dict Bool) (k : String)
    → get (mark_missing a dict) k ≡ (if contains_string a k then some false else get dict k)
unfolding mark_missing contains_string
get-mark_missing [] dict k = refl
get-mark_missing (x ∷ a) dict k =
    ground (arith, get-mark_missing a (put dict x false) k, get-put dict x k false)

-- The second loop gives up at an item that the first did not meet.
mark_found-none :
    (b : List String) (dict : Dict Bool)
    → mark_found b dict ≡ none
    → (k : String) × (contains_string b k ≡ true) × (get dict k ≡ none)
unfolding mark_found contains_string
mark_found-none [] dict h = cc
mark_found-none (x ∷ b) dict h = elim (Option-cases (get dict x)) [
  | inl absent ↦ (x, rw eq_refl, absent)
  | inr (v, there) ↦
      let (k, c, g) = mark_found-none b (put dict x true) (ground arith) in
      (k, ground arith, ground (arith, get-put dict x k true))
]

-- Otherwise it marks the items of `b`, all of which the first met.
mark_found-some :
    (b : List String) (dict out : Dict Bool)
    → mark_found b dict ≡ some out
    → (k : String)
    → (get out k ≡ (if contains_string b k then some true else get dict k))
      × (contains_string b k ≡ true → has dict k ≡ true)
unfolding mark_found contains_string
mark_found-some [] dict out h k = ground arith
mark_found-some (x ∷ b) dict out h k = elim (Bool-cases (has dict x)) [
  | inl there ↦ ground (
    arith,
    mark_found-some b (put dict x true) out (ground arith) k,
    get-put dict x k true,
    eq_iff x k,
  )
  | inr absent ↦ ground arith
]

abbrev IsUnique : Dict Bool → Type 0
IsUnique [] = Unit
IsUnique ((k, v) ∷ dict) = (get dict k ≡ none) × IsUnique dict

put-IsUnique : (dict : Dict Bool) (k : String) (v : Bool) → IsUnique dict → IsUnique (put dict k v)
unfolding put
put-IsUnique [] k v u = (unfold get in refl, tt)
put-IsUnique ((j, w) ∷ dict) k v (absent, u) = elim (Bool-cases (j == k)) [
  | inl e ↦ rw e (absent, u)
  | inr e ↦
      rw e (ground (arith, get-put dict k j v, eq_iff j k, eq_iff k j), put-IsUnique dict k v u)
]

mark_missing-IsUnique :
    (a : List String) (dict : Dict Bool) → IsUnique dict → IsUnique (mark_missing a dict)
unfolding mark_missing
mark_missing-IsUnique [] dict u = u
mark_missing-IsUnique (x ∷ a) dict u =
    mark_missing-IsUnique a (put dict x false) (put-IsUnique dict x false u)

mark_found-IsUnique :
    (b : List String) (dict out : Dict Bool)
    → mark_found b dict ≡ some out
    → IsUnique dict
    → IsUnique out
unfolding mark_found
mark_found-IsUnique [] dict out h u = subst IsUnique (ground arith) u
mark_found-IsUnique (x ∷ b) dict out h u =
    mark_found-IsUnique b (put dict x true) out (ground arith) (put-IsUnique dict x true u)

all_found-true : (dict : Dict Bool) → all_found dict ≡ true → (k : String) → get dict k ≢ some false
unfolding all_found get
all_found-true [] h k e = cc
all_found-true ((j, v) ∷ dict) h k e = ground (arith, all_found-true dict (ground arith) k)

all_found-false :
    (dict : Dict Bool)
    → IsUnique dict
    → all_found dict ≡ false
    → (k : String) × (get dict k ≡ some false)
unfolding all_found get
all_found-false [] u h = cc
all_found-false ((j, false) ∷ dict) u h = (j, rw eq_refl)
all_found-false ((j, true) ∷ dict) (absent, u) h =
    let (k, e) = all_found-false dict u h in (k, ground (arith, eq_iff j k))

module _ (a b : List String) where
  Same : Type 0
  Same = (k : String) → contains_string a k ≡ contains_string b k

  start : Dict Bool
  start = mark_missing a []

  get-start : (k : String) → get start k ≡ (if contains_string a k then some false else none)
  unfolding start
  get-start k = get-mark_missing a [] k ∙ (unfold get in refl)

  start-IsUnique : IsUnique start
  unfolding start
  start-IsUnique = mark_missing-IsUnique a [] tt

  judge : Option (Dict Bool) → Bool
  judge o = elim o [ none ↦ false | some dict ↦ all_found dict ]

  same_of_found :
      (out : Dict Bool)
      → mark_found b start ≡ some out
      → all_found out ≡ true
      → (k : String) → contains_string a k ≡ contains_string b k
  same_of_found out e h k =
      ground (arith, mark_found-some b start out e k, get-start k, all_found-true out h k)

  found_of_same :
      ((k : String) → contains_string a k ≡ contains_string b k)
      → (o : Option (Dict Bool)) → mark_found b start ≡ o
      → judge o ≡ true
  unfolding judge
  found_of_same same none e =
      let (k, c, g) = mark_found-none b start e in ground (arith, same k, get-start k)
  found_of_same same (some out) e = elim (Bool-cases (all_found out)) [
    | inl t ↦ t
    | inr f ↦
        let (k, g) = all_found-false out (mark_found-IsUnique b start out e start-IsUnique) f in
        ground (arith, same k, get-start k, mark_found-some b start out e k)
  ]

  -- `isStringArraysEqualElements` answers true exactly when every string is in both slices or in
  -- neither, whatever their order and repetitions.
  pub is_string_arrays_equal_elements_iff :
      (is_string_arrays_equal_elements a b ≡ true)
      ↔ ((k : String) → contains_string a k ≡ contains_string b k)
  unfolding is_string_arrays_equal_elements start judge
  is_string_arrays_equal_elements_iff = (
    λ h. forward (mark_found b start) refl h,
    λ same. found_of_same same (mark_found b start) refl,
  )
    where
      forward :
          (o : Option (Dict Bool))
          → mark_found b start ≡ o
          → judge o ≡ true
          → (k : String) → contains_string a k ≡ contains_string b k
      forward none e h = ground arith
      forward (some out) e h = same_of_found out e h
