-- ===== src/Conditions/Laws.antt =====
-- What `SetStatusCondition` and `RemoveStatusCondition` do to the conditions that are looked up
-- afterwards.
use nvmesh_k8s_operator.Prelude.{
  ℕ, ◌≡◌, ◌≢◌, refl, String, true, false, Option, none, some, List, [], ◌∷◌, ◌++◌, ◌==◌, arith,
  if◌then◌else◌, eq_iff, eq_refl, ◌↔◌, Bool-cases, Option-cases, inl, inr, select, not,
}
use nvmesh_k8s_operator.Api.{ClusterCondition, ConditionStatus}
use nvmesh_k8s_operator.Conditions.{
  status_eq, find_status_condition, update_existing, write_first, set_status_condition,
  remove_status_condition, is_status_condition_present_and_equal,
}

find-append :
    (cs : List ClusterCondition) (c : ClusterCondition) (t : String)
    → find_status_condition (cs ++ c ∷ []) t ≡ elim (find_status_condition cs t) [
      | none ↦ if c.type == t then some c else none
      | some e ↦ some e
    ]
unfolding find_status_condition
find-append [] c t = ground arith
find-append (d ∷ cs) c t = ground (arith, find-append cs c t)

find-write_first :
    (f : ClusterCondition → ClusterCondition) (k t : String) (cs : List ClusterCondition)
    → ((c : ClusterCondition) → (f c).type ≡ c.type)
    → find_status_condition (write_first f k cs) t ≡ elim (find_status_condition cs t) [
      | none ↦ none
      | some e ↦ if k == t then some (f e) else some e
    ]
unfolding find_status_condition write_first
find-write_first f k t [] keeps = refl
find-write_first f k t (c ∷ cs) keeps =
    ground (
      arith,
      keeps c,
      eq_iff c.type k,
      eq_iff c.type t,
      eq_iff k t,
      find-write_first f k t cs keeps,
    )

-- What a lookup of the type that was set finds.
abbrev pub merged : ℕ → Option ClusterCondition → ClusterCondition → ClusterCondition
merged now none c = record c {
  last_transition_time = elim c.last_transition_time [ none ↦ some now | some t ↦ some t ];
}
merged now (some e) c = update_existing now e c

update_existing-type : (now : ℕ) (e c : ClusterCondition) → (update_existing now e c).type ≡ e.type
unfolding update_existing
update_existing-type now e c = ground arith

find-of_eq :
    (cs : List ClusterCondition) {s t : String}
    → s ≡ t
    → find_status_condition cs s ≡ find_status_condition cs t
find-of_eq cs e = cc

pub find-set :
    (now : ℕ) (cs : List ClusterCondition) (c : ClusterCondition) (t : String)
    → find_status_condition (set_status_condition now cs c) t ≡ (
        if c.type == t
        then some (merged now (find_status_condition cs c.type) c)
        else find_status_condition cs t)
unfolding set_status_condition
find-set now cs c t = ground (
  arith,
  find-append cs (merged now none c) t,
  find-write_first (λ e. update_existing now e c) c.type t cs (λ e. update_existing-type now e c),
  eq_iff c.type t,
  λ (e : c.type ≡ t). find-of_eq cs e,
)

-- Each type stands at most once.
abbrev pub IsUnique : List ClusterCondition → Type 0
IsUnique [] = Unit
IsUnique (c ∷ cs) = (find_status_condition cs c.type ≡ none) × IsUnique cs

find-cons :
    (d : ClusterCondition) (cs : List ClusterCondition) (t : String)
    → find_status_condition (d ∷ cs) t
      ≡ (if d.type == t then some d else find_status_condition cs t)
unfolding find_status_condition
find-cons d cs t = ground arith

append-IsUnique :
    (cs : List ClusterCondition) (c : ClusterCondition)
    → find_status_condition cs c.type ≡ none
    → IsUnique cs
    → IsUnique (cs ++ c ∷ [])
append-IsUnique [] c h u = unfold find_status_condition in (refl, tt)
append-IsUnique (d ∷ cs) c h (absent, u) = (
  ground (
    arith,
    find-append cs c d.type,
    find-cons d cs c.type,
    eq_iff c.type d.type,
    eq_iff d.type c.type,
  ),
  append-IsUnique cs c (ground (arith, find-cons d cs c.type)) u,
)

write_first-IsUnique :
    (f : ClusterCondition → ClusterCondition) (k : String) (cs : List ClusterCondition)
    → ((c : ClusterCondition) → (f c).type ≡ c.type)
    → IsUnique cs
    → IsUnique (write_first f k cs)
unfolding write_first
write_first-IsUnique f k [] keeps u = tt
write_first-IsUnique f k (c ∷ cs) keeps (absent, u) = elim (Bool-cases (c.type == k)) [
  | inl e ↦ rw e ((ground (arith, keeps c, find-of_eq cs (keeps c))), u)
  | inr e ↦
      rw e
        (rw (find-write_first f k c.type cs keeps) (rw absent), write_first-IsUnique f k cs keeps u)
]

-- `SetStatusCondition` keeps at most one condition of each type.
pub set-IsUnique :
    (now : ℕ) (cs : List ClusterCondition) (c : ClusterCondition)
    → IsUnique cs
    → IsUnique (set_status_condition now cs c)
unfolding set_status_condition
set-IsUnique now cs c u = elim (Option-cases (find_status_condition cs c.type)) [
  | inl e ↦ rw (e, IsUnique, set_status_condition) (append-IsUnique cs _ e u)
  | inr (d, e) ↦
      rw (e, IsUnique, set_status_condition)
        (write_first-IsUnique _ c.type cs (λ e. update_existing-type now e c) u)
]

find-present :
    (cs : List ClusterCondition) (t : String) (s : ConditionStatus)
    → is_status_condition_present_and_equal cs t s
      ≡ elim (find_status_condition cs t) [ none ↦ false | some c ↦ status_eq c.status s ]
unfolding find_status_condition is_status_condition_present_and_equal
find-present [] t s = refl
find-present (c ∷ cs) t s = ground (arith, find-present cs t s)

status_eq_iff : (a b : ConditionStatus) → (status_eq a b ≡ true) ↔ (a ≡ b)
status_eq_iff a b = ground arith

merged-status :
    (now : ℕ) (o : Option ClusterCondition) (c : ClusterCondition)
    → (merged now o c).status ≡ c.status
unfolding update_existing
merged-status now none c = refl
merged-status now (some e) c = ground (arith, status_eq_iff e.status c.status)

-- The test on the status of a type answers by the condition that was set last: for its own type
-- whether its status is the one asked for, and for any other type what it answered before.
pub present-set :
    (now : ℕ) (cs : List ClusterCondition) (c : ClusterCondition) (t : String) (s : ConditionStatus)
    → is_status_condition_present_and_equal (set_status_condition now cs c) t s
      ≡ (if c.type == t then status_eq c.status s else is_status_condition_present_and_equal cs t s)
present-set now cs c t s = ground (
  arith,
  find-present cs t s,
  find-present (set_status_condition now cs c) t s,
  find-set now cs c t,
  merged-status now (find_status_condition cs c.type) c,
)

-- Where a condition of the type is there, `SetStatusCondition` leaves one with the new status and reason.
-- It keeps its transition time where the new status is the old one; where it is another, and the new
-- condition has no time, it takes the current time.
pub transition_time-set :
    (now : ℕ) (cs : List ClusterCondition) (c e : ClusterCondition)
    → find_status_condition cs c.type ≡ some e
    → (d : ClusterCondition) × (find_status_condition (set_status_condition now cs c) c.type
        ≡ some d)
      × (d.status ≡ c.status)
      × (d.reason ≡ c.reason)
      × (e.status ≡ c.status → d.last_transition_time ≡ e.last_transition_time)
      × (e.status ≢ c.status → c.last_transition_time ≡ none → d.last_transition_time ≡ some now)
unfolding update_existing
transition_time-set now cs c e h = (
  update_existing now e c,
  rw find-set (simp (eq_refl, h)),
  merged-status now (some e) c,
  ground arith,
  λ q. ground (arith, status_eq_iff e.status c.status),
  λ q r. ground (arith, status_eq_iff e.status c.status),
)

find-select :
    (cs : List ClusterCondition) (k t : String)
    → find_status_condition (select (λ e. not (e.type == k)) cs) t
      ≡ (if k == t then none else find_status_condition cs t)
unfolding find_status_condition
find-select [] k t = ground arith
find-select (c ∷ cs) k t =
    ground (arith, find-select cs k t, eq_iff c.type k, eq_iff c.type t, eq_iff k t)

-- The outcome of removing a type: a panic for an empty list, and otherwise a list where the type is
-- not found and every other type is found as before.
abbrev pub RemovesType : List ClusterCondition → String → Option (List ClusterCondition) → Type 0
RemovesType cs k none = cs ≡ []
RemovesType cs k (some rest) =
    (t : String)
    → find_status_condition rest t ≡ (if k == t then none else find_status_condition cs t)

-- On a list with a condition, `RemoveStatusCondition` returns one where the type is not found and
-- every other type is found as before; on an empty list it panics.
pub remove-RemovesType :
    (cs : List ClusterCondition) (k : String) → RemovesType cs k (remove_status_condition cs k)
unfolding remove_status_condition
remove-RemovesType [] k = refl
remove-RemovesType (c ∷ cs) k = λ t. find-select (c ∷ cs) k t
