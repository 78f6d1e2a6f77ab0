-- ===== src/Conditions.antt =====
-- pkg/conditions/conditions.go: the list of status conditions of a resource. `time.Now()` is the
-- argument `now`. The proofs are in the child Laws.
pub mod Laws
use nvmesh_k8s_operator.Prelude.{
  ℕ, String, Bool, true, false, Option, none, some, List, [], ◌∷◌, ◌++◌, first, select, not, ◌==◌,
  if◌then◌else◌,
}
use nvmesh_k8s_operator.Api.{ClusterCondition, ConditionStatus, is_true, is_false, unknown}

abbrev pub status_eq : ConditionStatus → ConditionStatus → Bool
status_eq is_true is_true = true
status_eq is_false is_false = true
status_eq unknown unknown = true
status_eq _ _ = false

-- FindStatusCondition: the first condition of a type, `none` for a nil pointer.
unfoldable pub find_status_condition : List ClusterCondition → String → Option ClusterCondition
find_status_condition cs t = first (λ c. c.type == t) cs

-- What the body does to the condition that the pointer `existingCondition` shows.
unfoldable pub update_existing : ℕ → ClusterCondition → ClusterCondition → ClusterCondition
update_existing now existing c =
    let changed = record existing {
      status = c.status;
      last_transition_time = elim c.last_transition_time [ none ↦ some now | some t ↦ some t ];
    } in
    let e = if status_eq existing.status c.status then existing else changed in
    record e { reason = c.reason; message = c.message }

-- The write through the pointer: the first condition of the type is replaced in place.
unfoldable pub write_first :
    (ClusterCondition → ClusterCondition) → String → List ClusterCondition → List ClusterCondition
write_first f t [] = []
write_first f t (c ∷ cs) =
    let rest = write_first f t cs in if c.type == t then f c ∷ cs else c ∷ rest

-- SetStatusCondition, for a non-nil list
unfoldable pub set_status_condition :
    ℕ → List ClusterCondition → ClusterCondition → List ClusterCondition
set_status_condition now cs c =
    let fresh = record c {
      last_transition_time = elim c.last_transition_time [ none ↦ some now | some t ↦ some t ];
    } in
    elim (find_status_condition cs c.type) [
      | none ↦ cs ++ fresh ∷ []
      | some _ ↦ write_first (λ e. update_existing now e c) c.type cs
    ]

-- RemoveStatusCondition, for a non-nil list. `make` with the capacity `len(*conditions)-1` panics
-- on an empty list: `none`.
unfoldable pub remove_status_condition :
    List ClusterCondition → String → Option (List ClusterCondition)
remove_status_condition [] t = none
remove_status_condition (c ∷ cs) t = some (select (λ e. not (e.type == t)) (c ∷ cs))

-- IsStatusConditionPresentAndEqual
unfoldable pub is_status_condition_present_and_equal :
    List ClusterCondition → String → ConditionStatus → Bool
is_status_condition_present_and_equal [] t s = false
is_status_condition_present_and_equal (c ∷ cs) t s =
    if c.type == t then status_eq c.status s else is_status_condition_present_and_equal cs t s

unfoldable pub is_status_condition_true : List ClusterCondition → String → Bool
unfolding is_status_condition_present_and_equal
is_status_condition_true cs t = is_status_condition_present_and_equal cs t is_true

unfoldable pub is_status_condition_false : List ClusterCondition → String → Bool
unfolding is_status_condition_present_and_equal
is_status_condition_false cs t = is_status_condition_present_and_equal cs t is_false
