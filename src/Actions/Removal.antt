-- ===== src/Actions/Removal.antt =====
-- `removeAction` fills a new list by index; it takes out the element at the index, and panics where
-- there is none.
use nvmesh_k8s_operator.Prelude.{
  ℕ, zero, suc, ◌+◌, ◌-◌, ◌<◌, Option, none, some, true, List, [], ◌∷◌, ◌++◌, length, set, ltb,
  if◌then◌else◌, ◌≡◌, refl, sym, ap, subst, ◌∙◌, arith, length-append, append_assoc, append-nil,
}
use nvmesh_k8s_operator.Api.{ClusterAction}
use nvmesh_k8s_operator.Actions.{
  no_action, make_actions, assign, remove_step, remove_loop, remove_action,
}

abbrev pub prepend {ℓ} : {A : Type ℓ} → A → Option (List A) → Option (List A)
prepend a none = none
prepend a (some l) = some (a ∷ l)

-- A list without its element at an index, if there is one.
abbrev pub remove_at {ℓ} : {A : Type ℓ} → ℕ → List A → Option (List A)
remove_at index [] = none
remove_at zero (a ∷ l) = some l
remove_at (suc index) (a ∷ l) = prepend a (remove_at index l)

set-append :
    (l more : List ClusterAction) (a b : ClusterAction)
    → set (l ++ a ∷ more) (length l) b ≡ l ++ b ∷ more
set-append [] more a b = refl
set-append (x ∷ l) more a b = ap (λ r. x ∷ r) (set-append l more a b)

length-middle :
    (l more : List ClusterAction) (a : ClusterAction) → length l < length (l ++ a ∷ more)
length-middle l more a = omega (arith, length-append l (a ∷ more))

in_range :
    (l more : List ClusterAction) (a : ClusterAction) (i : ℕ)
    → i ≡ length l
    → ltb i (length (l ++ a ∷ more)) ≡ true
in_range l more a i e = ground (arith, e, length-middle l more a)

-- A write at the end of the filled part moves that end.
assign-fills :
    (l : List ClusterAction) (n i : ℕ) (item : ClusterAction)
    → i ≡ length l
    → assign (l ++ make_actions (suc n)) i item ≡ some ((l ++ item ∷ []) ++ make_actions n)
unfolding assign make_actions
assign-fills l n i item e =
    let target = l ++ no_action ∷ make_actions n in
    ap (λ b. if b then some (set target i item) else none)
      (in_range l (make_actions n) no_action i e)
    ∙ ap (λ j. some (set target j item)) e
    ∙ ap some (
        set-append l (make_actions n) no_action item
        ∙ sym (append_assoc l (item ∷ []) (make_actions n)))

length-snoc : (l : List ClusterAction) (a : ClusterAction) → length (l ++ a ∷ []) ≡ suc (length l)
length-snoc l a = omega (arith, length-append l (a ∷ []))

step-before :
    (index i : ℕ) (item : ClusterAction) (l : List ClusterAction)
    → i < index
    → remove_step index i item l ≡ assign l i item
unfolding remove_step
step-before index i item l h = ground (arith, h)

step-at :
    (index : ℕ) (item : ClusterAction) (l : List ClusterAction)
    → remove_step index index item l ≡ some l
unfolding remove_step
step-at index item l = ground arith

step-behind :
    (index i : ℕ) (item : ClusterAction) (l : List ClusterAction)
    → index < i
    → remove_step index i item l ≡ assign l (i - 1) item
unfolding remove_step
step-behind index i item l h = ground (arith, h)

loop-step :
    (index i : ℕ) (item : ClusterAction) (items l : List ClusterAction)
    (o : Option (List ClusterAction))
    → remove_step index i item l ≡ o
    → remove_loop index i (item ∷ items) l
      ≡ elim o [ none ↦ none | some l' ↦ remove_loop index (suc i) items l' ]
unfolding remove_loop
loop-step index i item items l o h =
    ap
      (λ (o : Option (List ClusterAction)). elim o as (λ _. Option (List ClusterAction)) [
        | none ↦ none
        | some l' ↦ remove_loop index (suc i) items l'
      ])
      h

-- Behind the index, every item is written one place before its own.
loop-behind :
    (index i : ℕ) (items l : List ClusterAction)
    → index < i
    → i ≡ suc (length l)
    → remove_loop index i items (l ++ make_actions (length items)) ≡ some (l ++ items)
unfolding remove_loop make_actions
loop-behind index i [] l lt e = refl
loop-behind index i (item ∷ items) l lt e =
    loop-step index i item items (l ++ make_actions (suc (length items)))
      (some ((l ++ item ∷ []) ++ make_actions (length items)))
      (step-behind index i item (l ++ make_actions (suc (length items))) lt
        ∙ assign-fills l (length items) (i - 1) item (omega (arith, e)))
    ∙ loop-behind index (suc i) items (l ++ item ∷ []) (omega (arith, lt))
        (ap suc (e ∙ sym (length-snoc l item)))
    ∙ ap some (append_assoc l (item ∷ []) items)

-- The filled part and what is left of the items.
abbrev append_to {ℓ} : {A : Type ℓ} → List A → Option (List A) → Option (List A)
append_to l none = none
append_to l (some more) = some (l ++ more)

append_to-prepend :
    (l : List ClusterAction) (a : ClusterAction) (o : Option (List ClusterAction))
    → append_to (l ++ a ∷ []) o ≡ append_to l (prepend a o)
append_to-prepend l a none = refl
append_to-prepend l a (some more) = ap some (append_assoc l (a ∷ []) more)

assign-beyond :
    (l : List ClusterAction) (i : ℕ) (item : ClusterAction)
    → i ≡ length l
    → assign (l ++ make_actions 0) i item ≡ none
unfolding assign make_actions
assign-beyond l i item e = ground (arith, e, append-nil l, ap length (append-nil l))

-- Up to the index, every item is written at its own place.
loop-before :
    (before index i : ℕ) (item : ClusterAction) (items l : List ClusterAction)
    → i ≡ length l
    → index ≡ before + i
    → remove_loop index i (item ∷ items) (l ++ make_actions (length items))
      ≡ append_to l (remove_at before (item ∷ items))
loop-before zero index i item items l e p =
    loop-step index i item items (l ++ make_actions (length items))
      (some (l ++ make_actions (length items)))
      (subst
        (λ n.
          remove_step index n item (l ++ make_actions (length items))
          ≡ some (l ++ make_actions (length items)))
        (omega (arith, p)) (step-at index item (l ++ make_actions (length items))))
    ∙ loop-behind index (suc i) items l (omega (arith, p)) (ap suc e)
loop-before (suc before) index i item [] l e p =
    loop-step index i item [] (l ++ make_actions 0) none
      (step-before index i item (l ++ make_actions 0) (omega (arith, p)) ∙ assign-beyond l i item e)
loop-before (suc before) index i item (next ∷ items) l e p =
    loop-step index i item (next ∷ items) (l ++ make_actions (suc (length items)))
      (some ((l ++ item ∷ []) ++ make_actions (length items)))
      (step-before index i item (l ++ make_actions (suc (length items))) (omega (arith, p))
        ∙ assign-fills l (length items) i item e)
    ∙ loop-before before index (suc i) next items (l ++ item ∷ [])
        (ap suc e ∙ sym (length-snoc l item)) (omega (arith, p))
    ∙ append_to-prepend l item (remove_at before (next ∷ items))

append_to-nil : (o : Option (List ClusterAction)) → append_to [] o ≡ o
append_to-nil none = refl
append_to-nil (some l) = refl

-- `removeAction` takes out the element at the index and keeps the others in their order; it panics
-- exactly where the index is out of range.
pub remove_action-remove_at :
    (index : ℕ) (actions : List ClusterAction)
    → remove_action index actions ≡ remove_at index actions
unfolding remove_action
remove_action-remove_at index [] = refl
remove_action-remove_at index (a ∷ actions) =
    loop-before index index 0 a actions [] refl (omega arith)
    ∙ append_to-nil (remove_at index (a ∷ actions))
