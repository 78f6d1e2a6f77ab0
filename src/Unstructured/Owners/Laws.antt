-- ===== src/Unstructured/Owners/Laws.antt =====
-- `addOwnerReference` of pkg/controllers/ctrl_utils.go puts one reference and keeps those to other
-- objects.
use nvmesh_k8s_operator.Prelude.{
  ℕ, suc, ◌+◌, String, true, false, Option, none, some, List, [], ◌∷◌, select, first, not, ◌≡◌,
  refl, sym, ◌∙◌, arith, eq_refl, ap, Bool-cases, inl, inr,
}
use nvmesh_k8s_operator.Kube.{ok}
use nvmesh_k8s_operator.Unstructured.Types.{OwnerReference, Unstructured, Dynamic}
use nvmesh_k8s_operator.Unstructured.Owners.{
  same_groups, refer_same_object, index_owner_ref_from, index_owner_ref, put_owner,
  add_owner_reference,
}

module _ {W : Type 0} (dynamic : Dynamic W) where
  -- The references to other objects than that of `ref`.
  abbrev pub others : OwnerReference → List OwnerReference → List OwnerReference
  others ref owners = select (λ r. not (refer_same_object dynamic r ref)) owners

  -- The first reference to the object of `ref`.
  abbrev pub reference_to : OwnerReference → List OwnerReference → Option OwnerReference
  reference_to ref owners = first (λ r. refer_same_object dynamic r ref) owners

  abbrev shifted : Option ℕ → Option ℕ
  shifted none = none
  shifted (some i) = some (suc i)

  index_owner_ref_from-suc :
      (n : ℕ) (owners : List OwnerReference) (ref : OwnerReference)
      → index_owner_ref_from dynamic (n + 1) owners ref
        ≡ shifted (index_owner_ref_from dynamic n owners ref)
  unfolding index_owner_ref_from
  index_owner_ref_from-suc n [] ref = refl
  index_owner_ref_from-suc n (r ∷ owners) ref =
      elim (Bool-cases (refer_same_object dynamic r ref)) [
        | inl q ↦ rw q (ap some (omega arith))
        | inr q ↦ rw q (index_owner_ref_from-suc (n + 1) owners ref)
      ]

  -- `put_owner` at the index of `indexOwnerRef`
  abbrev put : OwnerReference → List OwnerReference → List OwnerReference
  put ref owners = put_owner dynamic owners ref (index_owner_ref_from dynamic 0 owners ref)

  put_shifted :
      (r ref : OwnerReference) (owners : List OwnerReference) (i : Option ℕ)
      → put_owner dynamic (r ∷ owners) ref (shifted i) ≡ r ∷ put_owner dynamic owners ref i
  unfolding put_owner
  put_shifted r ref owners none = refl
  put_shifted r ref owners (some i) = refl

  put_same :
      (r ref : OwnerReference) (owners : List OwnerReference)
      → refer_same_object dynamic r ref ≡ true
      → put ref (r ∷ owners) ≡ ref ∷ owners
  unfolding put_owner index_owner_ref_from
  put_same r ref owners q = rw q refl

  put_other :
      (r ref : OwnerReference) (owners : List OwnerReference)
      → refer_same_object dynamic r ref ≡ false
      → put ref (r ∷ owners) ≡ r ∷ put ref owners
  unfolding index_owner_ref_from
  put_other r ref owners q =
      rw (q, index_owner_ref_from-suc 0 owners ref)
        (put_shifted r ref owners (index_owner_ref_from dynamic 0 owners ref))

  module _ (ref : OwnerReference) (self : refer_same_object dynamic ref ref ≡ true) where
    abbrev HasReference : List OwnerReference → Type 0
    HasReference owners =
        (others ref (put ref owners) ≡ others ref owners)
        × (reference_to ref (put ref owners) ≡ some ref)
        × (put ref (put ref owners) ≡ put ref owners)

    others_same :
        (r : OwnerReference) (owners : List OwnerReference)
        → refer_same_object dynamic r ref ≡ true
        → others ref (r ∷ owners) ≡ others ref owners
    others_same r owners q =
        ap (λ b. elim (not b) [ true ↦ r ∷ others ref owners | false ↦ others ref owners ]) q

    others_other :
        (r : OwnerReference) (owners : List OwnerReference)
        → refer_same_object dynamic r ref ≡ false
        → others ref (r ∷ owners) ≡ r ∷ others ref owners
    others_other r owners q =
        ap (λ b. elim (not b) [ true ↦ r ∷ others ref owners | false ↦ others ref owners ]) q

    reference_same :
        (r : OwnerReference) (owners : List OwnerReference)
        → refer_same_object dynamic r ref ≡ true
        → reference_to ref (r ∷ owners) ≡ some r
    reference_same r owners q =
        ap (λ b. elim b [ true ↦ some r | false ↦ reference_to ref owners ]) q

    reference_other :
        (r : OwnerReference) (owners : List OwnerReference)
        → refer_same_object dynamic r ref ≡ false
        → reference_to ref (r ∷ owners) ≡ reference_to ref owners
    reference_other r owners q =
        ap (λ b. elim b [ true ↦ some r | false ↦ reference_to ref owners ]) q

    put_same-HasReference :
        (r : OwnerReference) (owners : List OwnerReference)
        → refer_same_object dynamic r ref ≡ true
        → HasReference (r ∷ owners)
    put_same-HasReference r owners q = rw (put_same r ref owners q) (
      others_same ref owners self ∙ sym (others_same r owners q),
      reference_same ref owners self,
      put_same ref ref owners self,
    )

    put_other-HasReference :
        (r : OwnerReference) (owners : List OwnerReference)
        → refer_same_object dynamic r ref ≡ false
        → HasReference owners
        → HasReference (r ∷ owners)
    put_other-HasReference r owners q (kept, found, again) = rw (put_other r ref owners q) (
      others_other r (put ref owners) q ∙ ap (λ os. r ∷ os) kept ∙ sym (others_other r owners q),
      reference_other r (put ref owners) q ∙ found,
      put_other r ref (put ref owners) q ∙ ap (λ os. r ∷ os) again,
    )

    put-HasReference : (owners : List OwnerReference) → HasReference owners
    unfolding put_owner index_owner_ref_from
    put-HasReference [] =
        (others_same ref [] self, reference_same ref [] self, put_same ref ref [] self)
    put-HasReference (r ∷ owners) = elim (Bool-cases (refer_same_object dynamic r ref)) [
      | inl q ↦ put_same-HasReference r owners q
      | inr q ↦ put_other-HasReference r owners q (put-HasReference owners)
    ]

  refer_same_object_self :
      (ref : OwnerReference) (g : String)
      → dynamic.parse_group ref.api_version ≡ ok g
      → refer_same_object dynamic ref ref ≡ true
  unfolding refer_same_object same_groups
  refer_same_object_self ref g h = rw (h, eq_refl g, eq_refl ref.kind, eq_refl ref.name) refl

  -- A reference whose API version parses is put once: the references to other objects stay as they
  -- were, a look-up of its object finds it, and a second time changes nothing.
  pub add_owner_reference-puts :
      (ref : OwnerReference) (object : Unstructured) (g : String)
      → dynamic.parse_group ref.api_version ≡ ok g
      → (others ref (add_owner_reference dynamic ref object).owner_references
          ≡ others ref object.owner_references)
        × (reference_to ref (add_owner_reference dynamic ref object).owner_references ≡ some ref)
        × (add_owner_reference dynamic ref (add_owner_reference dynamic ref object)
            ≡ add_owner_reference dynamic ref object)
  unfolding add_owner_reference index_owner_ref
  add_owner_reference-puts ref object g h =
      let (kept, found, again) =
        put-HasReference ref (refer_same_object_self ref g h) object.owner_references in
      (kept, found, ap (λ os. record object { owner_references = os }) again)
