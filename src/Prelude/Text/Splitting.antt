-- ===== src/Prelude/Text/Splitting.antt =====
-- Splitting and joining texts at one character.
use Prim.Native.Nat.{◌-◌}
use Prim.Native.Char.{Char}
use Prim.Native.String.{String, ◌++◌, count}
use Prim.Native.String.count
use mathlib.Core.Path.{◌≡◌, refl, sym, ap, subst, ◌∙◌}
use mathlib.Core.Logic.{◌≢◌, inl, inr}
use mathlib.Core.Bool.{true, false}
use mathlib.Core.List.{List, [], ◌∷◌}
use native.Mathlib.Omega.{arith}
use text.Mathlib.Text.{starts_with}
use text.Mathlib.TextEquality.{starts_with_iff}
use text.Mathlib.TextPositions.{starts_with-append}
use text.Mathlib.TextLemmas.{head-eq_of_cons-eq, nil-append, cons-append}
use nvmesh_k8s_operator.Prelude.Tests.{Bool-cases}
use nvmesh_k8s_operator.Prelude.Lists.{All}
use nvmesh_k8s_operator.Prelude.Text.{join, split, split_from, push}

-- The text does not hold the character.
abbrev pub Lacks : Char → String → Type 0
Lacks d String.[] = Unit
Lacks d (String.◌∷◌ c s) = (c ≢ d) × Lacks d s

abbrev one : Char → String
one d = String.◌∷◌ d ""

one-append : (d : Char) (s : String) → one d ++ s ≡ String.◌∷◌ d s
one-append d s = rw (cons-append d "" s, nil-append s) refl

skip_none : (d : Char) → count (one d) - 1 ≡ 0
skip_none d = ground (arith, count.cons d "", count.nil)

separator_first : (d c : Char) (s : String) → starts_with (String.◌∷◌ c s) (one d) ≡ true → d ≡ c
separator_first d c s e =
    let (u, same) = (starts_with_iff (String.◌∷◌ c s) (one d)).0 e in
    head-eq_of_cons-eq (sym (one-append d u) ∙ same)

starts_with-other : (d c : Char) (s : String) → c ≢ d → starts_with (String.◌∷◌ c s) (one d) ≡ false
starts_with-other d c s other = elim (Bool-cases (starts_with (String.◌∷◌ c s) (one d))) [
  | inl e ↦ absurd (other (sym (separator_first d c s e)))
  | inr e ↦ e
]

starts_with_self : (d : Char) (s : String) → starts_with (String.◌∷◌ d s) (one d) ≡ true
starts_with_self d s =
    subst (λ (t : String). starts_with t (one d) ≡ true) (one-append d s)
      (starts_with-append (one d) s)

split-other :
    (d c : Char) (s : String) → c ≢ d → split (String.◌∷◌ c s) (one d) ≡ push c (split s (one d))
unfolding split
split-other d c s other = rw (starts_with-other d c s other, split_from) refl

split-separator : (d : Char) (s : String) → split (String.◌∷◌ d s) (one d) ≡ "" ∷ split s (one d)
unfolding split
split-separator d s = rw (starts_with_self d s, split_from) (rw (skip_none d) refl)

-- What stands before the first separator is the first piece.
pub split-append :
    (d : Char) (s t : String)
    → Lacks d s
    → split (s ++ String.◌∷◌ d t) (one d) ≡ s ∷ split t (one d)
unfolding push
split-append d String.[] t h = rw (nil-append (String.◌∷◌ d t)) (split-separator d t)
split-append d (String.◌∷◌ c s) t (other, h) =
    rw (cons-append c s (String.◌∷◌ d t))
      (split-other d c (s ++ String.◌∷◌ d t) other ∙ rw (split-append d s t h) refl)

-- A text without the separator is one piece.
pub split-Lacks : (d : Char) (s : String) → Lacks d s → split s (one d) ≡ s ∷ []
unfolding split
split-Lacks d String.[] h = refl
split-Lacks d (String.◌∷◌ c s) (other, h) = split-other d c s other ∙ rw (split-Lacks d s h) refl

-- Splitting undoes joining, for pieces without the separator.
pub split-join :
    (d : Char) (s : String) (pieces : List String)
    → Lacks d s
    → All (Lacks d) pieces
    → split (join (one d) (s ∷ pieces)) (one d) ≡ s ∷ pieces
unfolding join
split-join d s [] h hs = split-Lacks d s h
split-join d s (t ∷ pieces) h (ht, hs) =
    rw (one-append d (join (one d) (t ∷ pieces))) (
      split-append d s (join (one d) (t ∷ pieces)) h
      ∙ ap (λ l. s ∷ l) (split-join d t pieces ht hs))

push-cons : (c : Char) (x : String) (xs : List String) → push c (x ∷ xs) ≡ String.◌∷◌ c x ∷ xs
unfolding push
push-cons c x xs = refl

-- Splitting gives at least one piece.
pub split-ne-nil :
    (d : Char) (s : String) → (x : String) × (xs : List String) × (split s (one d) ≡ x ∷ xs)
unfolding split
split-ne-nil d String.[] = ("", [], refl)
split-ne-nil d (String.◌∷◌ c s) = elim (Bool-cases (starts_with (String.◌∷◌ c s) (one d))) [
  | inl e ↦ ("", split s (one d), rw (e, split_from) (rw (skip_none d) refl))
  | inr e ↦
      let (x, xs, q) = split-ne-nil d s in
      (String.◌∷◌ c x, xs, rw (e, split_from) (ap (push c) q ∙ push-cons c x xs))
]

join-push :
    (d c : Char) (x : String) (xs : List String)
    → join (one d) (String.◌∷◌ c x ∷ xs) ≡ String.◌∷◌ c (join (one d) (x ∷ xs))
unfolding join
join-push d c x [] = refl
join-push d c x (y ∷ xs) = cons-append c x _

-- Joining undoes splitting.
pub join-split : (d : Char) (s : String) → join (one d) (split s (one d)) ≡ s
unfolding split join
join-split d String.[] = refl
join-split d (String.◌∷◌ c s) = elim (Bool-cases (starts_with (String.◌∷◌ c s) (one d))) [
  | inl e ↦
      let (x, xs, q) = split-ne-nil d s in
      let rest = ap (join (one d)) (sym q) ∙ join-split d s in
      let joined = nil-append _ ∙ one-append d (join (one d) (x ∷ xs)) in
      rw (e, split_from)
        (rw (skip_none d) (
          ap (λ (l : List String). join (one d) ("" ∷ l)) q
          ∙ joined
          ∙ ap (String.◌∷◌ d) rest
          ∙ ap (λ (k : Char). String.◌∷◌ k s) (separator_first d c s e)))
  | inr e ↦
      let (x, xs, q) = split-ne-nil d s in
      rw (e, split_from)
        (ap (λ l. join (one d) (push c l)) q
          ∙ join-push d c x xs
          ∙ ap (String.◌∷◌ c) (ap (join (one d)) (sym q) ∙ join-split d s))
]

pub Lacks-append : (d : Char) (s t : String) → Lacks d s → Lacks d t → Lacks d (s ++ t)
Lacks-append d String.[] t hs ht = rw (nil-append t) ht
Lacks-append d (String.◌∷◌ c s) t (other, hs) ht =
    rw (cons-append c s t) (other, Lacks-append d s t hs ht)
