-- ===== src/Prelude/Distinct.antt =====
-- Association lists that are maps: every key stands once, so every pair is what a lookup finds.
use Prim.Native.String.{String}
use mathlib.Core.Path.{◌≡◌, refl}
use mathlib.Core.Logic.{inl, inr}
use mathlib.Core.Option.{none, some}
use mathlib.Core.List.{[], ◌∷◌}
use native.Mathlib.Omega.{arith}
use text.Mathlib.TextEquality.{eq_iff}
use nvmesh_k8s_operator.Prelude.Tests.{String-cases}
use nvmesh_k8s_operator.Prelude.Lists.{All, All-map}
use nvmesh_k8s_operator.Prelude.Dict.{Dict, get, put, get-put}

module _ {ℓ} {V : Type ℓ} where
  abbrev pub AreDistinct : Dict V → Type ℓ
  AreDistinct [] = Unit
  AreDistinct ((k, v) ∷ d) = (get d k ≡ none) × AreDistinct d

  pub put-AreDistinct : (d : Dict V) (k : String) (v : V) → AreDistinct d → AreDistinct (put d k v)
  unfolding put get
  put-AreDistinct [] k v h = (refl, tt)
  put-AreDistinct ((j, w) ∷ d) k v (fresh, h) = elim (String-cases j k) [
    | inl (_, same) ↦ rw same (fresh, h)
    | inr (_, other) ↦
        rw other
          (ground (arith, get-put d k j v, eq_iff j k, eq_iff k j, fresh), put-AreDistinct d k v h)
  ]

  -- Each pair of the list is found.
  abbrev pub Finds : (d pairs : Dict V) → Type ℓ
  Finds d pairs = All (λ (p : String × V). get d p.0 ≡ some p.1) pairs

  pub AreDistinct-Finds : (d : Dict V) → AreDistinct d → Finds d d
  unfolding get
  AreDistinct-Finds [] h = tt
  AreDistinct-Finds ((k, v) ∷ d) (fresh, h) = (
    ground (arith, eq_iff k k),
    All-map _ _ d (λ p found. ground (arith, eq_iff k p.0, fresh, found)) (AreDistinct-Finds d h),
  )
