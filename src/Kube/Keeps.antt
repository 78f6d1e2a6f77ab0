-- ===== src/Kube/Keeps.antt =====
-- Properties of the state that an action keeps, however it ends: one rule for each way to build an
-- action.
use nvmesh_k8s_operator.Prelude.{
  Option, none, some, Bool, true, false, if◌then◌else◌, ◌≡◌, refl, arith,
}
use nvmesh_k8s_operator.Kube.Actions.{
  Act, Call, Ran, returned, panicked, Result, ok, err, Err, pure, panic, call, and_then, ◌>>=◌,
  or_return,
}

pub record Keeps {S A : Type 0} (P : S → Type 0) (m : Act S A) : Type 0 where
  pub after : (s : S) → P s → P (m s).1

module _ {S A : Type 0} {P : S → Type 0} where
  pub Keeps-pure : (a : A) → Keeps P (pure {S = S} a)
  Keeps-pure a = record { after = λ s p. p }

  pub Keeps-panic : Keeps P (panic {S = S} {A = A})
  Keeps-panic = record { after = λ s p. p }

  pub Keeps-call : (m : Call S A) → ((s : S) → P s → P (m s).1) → Keeps P (call m)
  Keeps-call m k = record { after = k }

  pub Keeps-if : (b : Bool) (m n : Act S A) → Keeps P m → Keeps P n → Keeps P (if b then m else n)
  Keeps-if true m n km kn = km
  Keeps-if false m n km kn = kn

module _ {S A B : Type 0} {P : S → Type 0} where
  pub Keeps-option :
      (o : Option B) (n : Act S A) (f : B → Act S A)
      → Keeps P n
      → ((b : B) → Keeps P (f b))
      → Keeps P (elim o [ none ↦ n | some b ↦ f b ])
  Keeps-option none n f kn kf = kn
  Keeps-option (some b) n f kn kf = kf b

  pub Keeps-result :
      (r : Result B) (f : B → Act S A) (g : Err → Act S A)
      → ((b : B) → Keeps P (f b))
      → ((e : Err) → Keeps P (g e))
      → Keeps P (elim r [ ok b ↦ f b | err e ↦ g e ])
  Keeps-result (ok b) f g kf kg = kf b
  Keeps-result (err e) f g kf kg = kg e

  pub Keeps-bind :
      (m : Act S A) (f : A → Act S B) → Keeps P m → ((a : A) → Keeps P (f a)) → Keeps P (m >>= f)
  Keeps-bind m f km kf = record { after = λ s p. go (m s).0 (m s).1 (km.after s p) }
    where
      go : (r : Ran A) (s : S) → P s → P (and_then r f s).1
      go (returned a) s p = (kf a).after s p
      go panicked s p = p

pub ruleset keeps_rules =
    (Keeps-pure, Keeps-panic, Keeps-call, Keeps-if, Keeps-bind, Keeps-option, Keeps-result)

-- What a bind that returns has done: the first action returned, and the second ran after it.
module _ {S A B : Type 0} where
  and_then-returned :
      (r : Ran A) (f : A → Act S B) (s : S) {b : B}
      → (and_then r f s).0 ≡ returned b
      → (a : A) × (r ≡ returned a) × ((f a s).0 ≡ returned b) × (and_then r f s ≡ f a s)
  and_then-returned (returned a) f s h = (a, refl, h, refl)
  and_then-returned panicked f s h = cc

  pub bind-returned :
      (m : Act S A) (f : A → Act S B) (s : S) {b : B}
      → ((m >>= f) s).0 ≡ returned b
      → (a : A) × ((m s).0 ≡ returned a)
        × ((f a (m s).1).0 ≡ returned b)
        × ((m >>= f) s ≡ f a (m s).1)
  bind-returned m f s h = and_then-returned (m s).0 f (m s).1 h

-- Where `if err := m; err != nil { return err }` and its rest end without an error, both do.
module _ {S : Type 0} where
  and_then-none :
      (r : Ran (Option Err)) (k : Act S (Option Err)) (s : S)
      → (and_then r (λ e. elim e [ some x ↦ pure {S = S} (some x) | none ↦ k ]) s).0 ≡ returned none
      → (r ≡ returned none)
        × (and_then r (λ e. elim e [ some x ↦ pure {S = S} (some x) | none ↦ k ]) s ≡ k s)
  and_then-none (returned none) k s h = (refl, refl)
  and_then-none (returned (some x)) k s h = ground arith
  and_then-none panicked k s h = cc

  pub or_return-none :
      (m k : Act S (Option Err)) (s : S)
      → (or_return m k s).0 ≡ returned none
      → ((m s).0 ≡ returned none) × (or_return m k s ≡ k (m s).1)
  or_return-none m k s h = and_then-none (m s).0 k (m s).1 h

  pub Keeps-or_return :
      {P : S → Type 0} (m k : Act S (Option Err)) → Keeps P m → Keeps P k → Keeps P (or_return m k)
  Keeps-or_return {P} m k km kk = Keeps-bind m _ km (λ e. Keeps-error e)
    where
      Keeps-error :
          (e : Option Err) → Keeps P (elim e [ some x ↦ pure {S = S} (some x) | none ↦ k ])
      Keeps-error none = kk
      Keeps-error (some x) = Keeps-pure (some x)
