-- ===== src/Objects/Parts.antt =====
-- What the components' InitObject and ShouldUpdateObject share: the first container of a pod, which
-- must be there, and answers that are found without a call.
use nvmesh_k8s_operator.Prelude.{String, Bool, List, [], ◌∷◌, ◌≡◌, refl, arith, subst}
use nvmesh_k8s_operator.Prelude.Dict.{Dict}
use nvmesh_k8s_operator.Kube.{
  Act, Ran, returned, panicked, Result, ok, err, Container, Workload, Obj, Body, stateful_set,
  daemon_set, config_map, service, ServiceSpec,
}

abbrev change_first : (Container → Container) → Workload → List Container → Ran Workload
change_first change w [] = panicked
change_first change w (c ∷ containers) =
    returned (record w { template = record (w.template) { containers = change c ∷ containers } })

-- A change of `Spec.Template.Spec.Containers[0]`.
abbrev pub first_container : (Container → Container) → Workload → Ran Workload
first_container change w = change_first change w w.template.containers

abbrev pub HasContainer : List Container → Type 0
HasContainer [] = ⊥
HasContainer (_ ∷ _) = Unit

-- An object with another body, or the error.
abbrev pub with_body : Obj → Ran (Result Body) → Ran (Result Obj)
with_body o panicked = panicked
with_body o (returned (err e)) = returned (err e)
with_body o (returned (ok b)) = returned (ok (record o { body = b }))

abbrev pub unchanged : Body → Ran (Result Body)
unchanged b = returned (ok b)

abbrev pub map_ran : {A B : Type 0} → (A → B) → Ran A → Ran B
map_ran f panicked = panicked
map_ran f (returned a) = returned (f a)

-- A comparison that makes no call and leaves the expected object as it is.
abbrev pub answer : {W : Type 0} → Obj → Ran Bool → Act W (Bool × Obj)
answer expected r w = (map_ran (λ b. (b, expected)) r, w)

-- `(exp).(*appsv1.StatefulSet)` and the like panic for an object of another type.
abbrev pub with_stateful_set : (Workload → Ran Bool) → Body → Ran Bool
with_stateful_set f (stateful_set w) = f w
with_stateful_set f _ = panicked

abbrev pub with_daemon_set : (Workload → Ran Bool) → Body → Ran Bool
with_daemon_set f (daemon_set w) = f w
with_daemon_set f _ = panicked

abbrev pub with_config_map : {A : Type 0} → (Dict String → Ran A) → Body → Ran A
with_config_map f (config_map fields) = f fields
with_config_map f _ = panicked

abbrev pub with_service : {A : Type 0} → (ServiceSpec → Ran A) → Body → Ran A
with_service f (service spec) = f spec
with_service f _ = panicked

-- A workload whose first container could be changed has one, and keeps its replicas.
pub first_container-HasContainer :
    (change : Container → Container) (w w' : Workload)
    → first_container change w ≡ returned w'
    → HasContainer w'.template.containers × (w'.replicas ≡ w.replicas)
first_container-HasContainer change w w' h = go w.template.containers h
  where
    go :
        (l : List Container)
        → change_first change w l ≡ returned w'
        → HasContainer w'.template.containers × (w'.replicas ≡ w.replicas)
    go [] e = ground arith
    go (c ∷ l) e =
        subst
          (λ (r : Ran Workload). elim r [
            | panicked ↦ Unit {0}
            | returned v ↦ HasContainer v.template.containers × (v.replicas ≡ w.replicas)
          ])
          e (tt, refl)
