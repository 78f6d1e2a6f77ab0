-- ===== src/Reflect/Workloads.antt =====
-- The workloads of the operator as values of package reflect, and what the comparison at the paths
-- that the components name comes to.
use nvmesh_k8s_operator.Prelude.{
  ℕ, String, Bool, true, false, Option, none, some, List, [], ◌∷◌, ◌==◌, ◌≡◌, refl, not, ◌+◌, arith,
  nat_eq, eq_refl, ◌∙◌,
}
use nvmesh_k8s_operator.Kube.{
  Ran, returned, panicked, Container, PullPolicy, always, if_not_present, unset, Workload,
}
use nvmesh_k8s_operator.Objects.Parts.{HasContainer}
use nvmesh_k8s_operator.Reflect.{
  Value, text, number, nil, pointer, struct, slice, Fields, no_field, field, Elements, no_element,
  element,
}
use nvmesh_k8s_operator.Reflect.Compare.{
  Comparison, compare_fields_in_two_objects, compare_objects_at_json_path, or_next, values_equal,
}

unfoldable pub policy_text : PullPolicy → String
policy_text always = "Always"
policy_text if_not_present = "IfNotPresent"
policy_text unset = ""

abbrev container_value : Container → Value
container_value c = struct "v1.Container" (
    field "Name" (text "string" c.name) (
      field "Image" (text "string" c.image) (
        field "ImagePullPolicy" (text "v1.PullPolicy" (policy_text c.image_pull_policy)) no_field)))

abbrev container_values : List Container → Elements
container_values [] = no_element
container_values (c ∷ containers) = element (container_value c) (container_values containers)

abbrev replicas_value : (address : ℕ) → Option ℕ → Value
replicas_value address none = nil "*int32"
replicas_value address (some n) = pointer "*int32" address (number "int32" n)

-- A pointer to an object whose specification has a pod template, and other fields behind it.
unfoldable pub object_value : (type : String) → (address : ℕ) → Fields → List Container → Value
object_value type address others containers = pointer type address (
    struct type (
      field "Spec"
        (struct type (
          field "Template"
            (struct "v1.PodTemplateSpec" (
              field "Spec"
                (struct "v1.PodSpec" (
                  field "Containers" (slice "[]v1.Container" (container_values containers))
                    no_field))
                no_field))
            others))
        no_field))

-- *appsv1.StatefulSet and *appsv1.DaemonSet, with the fields that the model has
unfoldable pub stateful_set_value : (address : ℕ) → Workload → Value
unfolding object_value
stateful_set_value address w =
    object_value "v1.StatefulSet" address
      (field "Replicas" (replicas_value (address + 1) w.replicas) no_field) w.template.containers

unfoldable pub daemon_set_value : (address : ℕ) → Workload → Value
unfolding object_value
daemon_set_value address w = object_value "v1.DaemonSet" address no_field w.template.containers

abbrev pub image_path : String
image_path = "Spec.Template.Spec.Containers[0].Image"

abbrev pub pull_policy_path : String
pull_policy_path = "Spec.Template.Spec.Containers[0].ImagePullPolicy"

abbrev pub replicas_path : String
replicas_path = "Spec.Replicas"

-- How the components use the comparison: whether a field differs. After an error the result says so.
abbrev needs_update : Ran Comparison → Ran Bool
needs_update panicked = panicked
needs_update (returned (_, result)) = returned (not result.equals)

unfoldable pub fields_differ : List String → (expected found : Value) → Ran Bool
unfolding compare_fields_in_two_objects
fields_differ paths expected found =
    needs_update (compare_fields_in_two_objects expected found paths)

-- The comparison that is meant, read off the records: the first containers', then the replicas'.
abbrev pub first_differs :
    (Container → Container → Bool) → (expected found : List Container) → Ran Bool
first_differs same (c ∷ _) (d ∷ _) = returned (not (same c d))
first_differs same _ _ = panicked

abbrev pub replicas_differ : (expected found : Option ℕ) → Ran Bool
replicas_differ (some m) (some n) = returned (not (nat_eq m n))
replicas_differ _ _ = panicked

-- `||`, which looks at the second test only after the first was false
abbrev pub or_else_differs : Ran Bool → Ran Bool → Ran Bool
or_else_differs panicked next = panicked
or_else_differs (returned true) next = returned true
or_else_differs (returned false) next = next

abbrev pub same_image : Container → Container → Bool
same_image c d = c.image == d.image

abbrev pub same_policy : Container → Container → Bool
same_policy c d = policy_text c.image_pull_policy == policy_text d.image_pull_policy

module _ (type : String) (a b : ℕ) where
  image_differs :
      (es fs : Fields) (cs ds : List Container)
      → fields_differ (image_path ∷ []) (object_value type a es cs) (object_value type b fs ds)
        ≡ first_differs same_image cs ds
  unfolding fields_differ compare_objects_at_json_path object_value values_equal or_next
  image_differs es fs [] ds = refl
  image_differs es fs (c ∷ cs) [] = refl
  image_differs es fs (c ∷ cs) (d ∷ ds) = ground arith

  image_or_policy_differs :
      (es fs : Fields) (cs ds : List Container)
      → fields_differ
          (image_path ∷ pull_policy_path ∷ [])
          (object_value type a es cs)
          (object_value type b fs ds)
        ≡ or_else_differs (first_differs same_image cs ds) (first_differs same_policy cs ds)
  unfolding fields_differ compare_objects_at_json_path object_value values_equal or_next
  image_or_policy_differs es fs [] ds = refl
  image_or_policy_differs es fs (c ∷ cs) [] = refl
  image_or_policy_differs es fs (c ∷ cs) (d ∷ ds) = ground arith

  image_or_replicas_differ :
      (c d : ℕ) (m n : Option ℕ) (cs ds : List Container)
      → fields_differ
          (image_path ∷ replicas_path ∷ [])
          (object_value type a (field "Replicas" (replicas_value c m) no_field) cs)
          (object_value type b (field "Replicas" (replicas_value d n) no_field) ds)
        ≡ or_else_differs (first_differs same_image cs ds) (replicas_differ m n)
  unfolding fields_differ compare_objects_at_json_path object_value values_equal or_next
  image_or_replicas_differ i j m n [] ds = refl
  image_or_replicas_differ i j m n (c ∷ cs) [] = refl
  image_or_replicas_differ i j none n (c ∷ cs) (d ∷ ds) = ground arith
  image_or_replicas_differ i j (some m) none (c ∷ cs) (d ∷ ds) = ground arith
  image_or_replicas_differ i j (some m) (some n) (c ∷ cs) (d ∷ ds) = ground arith

-- Two objects as the components compare them: the expected one and the one that was found.
module _ (e f : Workload) where
  pub images_differ :
      fields_differ (image_path ∷ []) (stateful_set_value 0 e) (stateful_set_value 2 f)
      ≡ first_differs same_image e.template.containers f.template.containers
  unfolding stateful_set_value
  images_differ = image_differs "v1.StatefulSet" 0 2 _ _ e.template.containers f.template.containers

  pub images_or_policies_differ :
      fields_differ
        (image_path ∷ pull_policy_path ∷ [])
        (daemon_set_value 0 e)
        (daemon_set_value 2 f)
      ≡ or_else_differs
          (first_differs same_image e.template.containers f.template.containers)
          (first_differs same_policy e.template.containers f.template.containers)
  unfolding daemon_set_value
  images_or_policies_differ =
      image_or_policy_differs "v1.DaemonSet" 0 2 _ _ e.template.containers f.template.containers

  pub images_or_replicas_differ :
      fields_differ
        (image_path ∷ replicas_path ∷ [])
        (stateful_set_value 0 e)
        (stateful_set_value 2 f)
      ≡ or_else_differs
          (first_differs same_image e.template.containers f.template.containers)
          (replicas_differ e.replicas f.replicas)
  unfolding stateful_set_value
  images_or_replicas_differ =
      image_or_replicas_differ "v1.StatefulSet" 0 2 _ _ e.replicas f.replicas e.template.containers
        f.template.containers

-- A workload with a container does not differ from itself.
module _ (cs : List Container) (some_container : HasContainer cs) where
  first_differs_self :
      (same : Container → Container → Bool)
      → ((c : Container) → same c c ≡ true)
      → first_differs same cs cs ≡ returned false
  first_differs_self same h = go cs some_container
    where
      go : (l : List Container) → HasContainer l → first_differs same l l ≡ returned false
      go [] x = absurd x
      go (c ∷ l) x = ground (arith, h c)

  image_self : first_differs same_image cs cs ≡ returned false
  image_self = first_differs_self same_image (λ c. eq_refl c.image)

module _ (w : Workload) (some_container : HasContainer w.template.containers) where
  pub same_image_lem :
      fields_differ (image_path ∷ []) (stateful_set_value 0 w) (stateful_set_value 2 w)
      ≡ returned false
  same_image_lem = images_differ w w ∙ image_self w.template.containers some_container

  pub same_image_and_policy_lem :
      fields_differ
        (image_path ∷ pull_policy_path ∷ [])
        (daemon_set_value 0 w)
        (daemon_set_value 2 w)
      ≡ returned false
  same_image_and_policy_lem =
      images_or_policies_differ w w
      ∙ rw (image_self w.template.containers some_container) (
          first_differs_self w.template.containers some_container same_policy
            (λ c. eq_refl (policy_text c.image_pull_policy)))

  pub same_image_and_replicas_lem :
      (n : ℕ)
      → w.replicas ≡ some n
      → fields_differ
          (image_path ∷ replicas_path ∷ [])
          (stateful_set_value 0 w)
          (stateful_set_value 2 w)
        ≡ returned false
  same_image_and_replicas_lem n replicas =
      images_or_replicas_differ w w
      ∙ rw (image_self w.template.containers some_container) (rw replicas (ground arith))
