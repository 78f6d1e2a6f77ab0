-- ===== src/Core/RoundTrip.antt =====
-- Reading nvmesh.conf undoes writing it.
use Prim.Native.Char.{Char, code}
use Prim.Native.String.{compare, ◌++◌ as append}
use Prim.Native.Nat.{Ordering}
use text.Mathlib.TextLemmas.{append-nil, nil-append, cons-append}
use nvmesh_k8s_operator.Prelude.{
  String, Bool, if◌then◌else◌, none, some, List, [], ◌∷◌, ◌==◌, ◌≡◌, refl, subst, ap, ◌∙◌, arith,
  eq_iff, All, concat, join, split, any, ◌||◌, ◌≢◌, Bool-cases, inl, inr,
}
use nvmesh_k8s_operator.Prelude.Dict.{Dict, get, put, has, get_text, keys, get-put}
use nvmesh_k8s_operator.Prelude.Text.Splitting.{
  Lacks, split-append, split-join, join-split, Lacks-append,
}
use nvmesh_k8s_operator.Core.{
  key_value, put_pair, add_lines, config_string_to_dict, insert_key, sort_keys, config_lines,
  config_dict_to_string,
}

one_line : ◌≢◌ {A = Char} "=" "\n"
one_line e = ground (arith, ap code e)

-- A line `key=value` is read as it was written, if the key has no equals sign.
abbrev line : String → String → String
line k v = concat (k ∷ "=" ∷ v ∷ [])

line-append : (k v : String) → line k v ≡ append k (String.◌∷◌ "=" v)
line-append k v =
    rw (append-nil v) (ap (append k) (cons-append "=" "" v ∙ ap (String.◌∷◌ "=") (nil-append v)))

key_value-line : (k v : String) → Lacks "=" k → key_value (split (line k v) "=") ≡ (k, v)
key_value-line k v h =
    rw (line-append k v, split-append "=" k v h) (ap (λ (t : String). (k, t)) (join-split "=" v))

abbrev contains : List String → String → Bool
contains l k = any (λ j. j == k) l

contains-insert_key :
    (j k : String) (l : List String) → contains (insert_key j l) k ≡ (j == k || contains l k)
contains-insert_key j k [] = refl
contains-insert_key j k (i ∷ l) = ground (arith, contains-insert_key j k l)

contains-sort_keys : (l : List String) (k : String) → contains (sort_keys l) k ≡ contains l k
unfolding sort_keys
contains-sort_keys [] k = refl
contains-sort_keys (j ∷ l) k =
    ground (arith, contains-insert_key j k (sort_keys l), contains-sort_keys l k)

contains-keys : (d : Dict String) (k : String) → contains (keys d) k ≡ has d k
unfolding get
contains-keys [] k = refl
contains-keys ((j, v) ∷ d) k = ground (arith, contains-keys d k)

-- What reading the written lines of some keys adds to a map.
get-add_lines :
    (d before : Dict String) (ks : List String) (k : String)
    → All (Lacks "=") ks
    → get (add_lines before (config_lines d ks)) k
      ≡ (if contains ks k then some (get_text d k) else get before k)
unfolding add_lines config_lines
get-add_lines d before [] k h = refl
get-add_lines d before (j ∷ ks) k (hj, h) =
    ap (λ (p : String × String). get (add_lines (put_pair before p) (config_lines d ks)) k)
      (key_value-line j (get_text d j) hj)
    ∙ ground (
      arith,
      get-add_lines d (put before j (get_text d j)) ks k h,
      get-put before j k (get_text d j),
      eq_iff j k,
    )

All-insert_key :
    (P : String → Type 0) (j : String) (l : List String) → P j → All P l → All P (insert_key j l)
All-insert_key P j [] pj h = (pj, tt)
All-insert_key P j (i ∷ l) pj (pi, h) =
    elim (compare j i)
      as (λ o. All P (elim o [ Ordering.gt ↦ i ∷ insert_key j l | _ ↦ j ∷ i ∷ l ])) [
        | Ordering.lt ↦ (pj, (pi, h))
        | Ordering.eq ↦ (pj, (pi, h))
        | Ordering.gt ↦ (pi, All-insert_key P j l pj h)
      ]

All-sort_keys : (P : String → Type 0) (l : List String) → All P l → All P (sort_keys l)
unfolding sort_keys
All-sort_keys P [] h = tt
All-sort_keys P (j ∷ l) (pj, h) = All-insert_key P j (sort_keys l) pj (All-sort_keys P l h)

-- What can stand on a line of nvmesh.conf: a key without an equals sign, and no line break.
abbrev pub IsSetting : String × String → Type 0
IsSetting (k, v) = Lacks "=" k × Lacks "\n" k × Lacks "\n" v

keys-Lacks :
    (c : Char) (pick : (p : String × String) → IsSetting p → Lacks c p.0) (d : Dict String)
    → All IsSetting d
    → All (Lacks c) (keys d)
keys-Lacks c pick [] h = tt
keys-Lacks c pick ((k, v) ∷ d) (p, h) = (pick (k, v) p, keys-Lacks c pick d h)

get_text-Lacks : (d : Dict String) (k : String) → All IsSetting d → Lacks "\n" (get_text d k)
unfolding get
get_text-Lacks [] k h = tt
get_text-Lacks ((j, v) ∷ d) k (p, h) = elim (Bool-cases (j == k)) [
  | inl e ↦ let same : v ≡ get_text ((j, v) ∷ d) k = ground arith in subst (Lacks "\n") same p.2
  | inr e ↦
      let same : get_text d k ≡ get_text ((j, v) ∷ d) k = ground arith in
      subst (Lacks "\n") same (get_text-Lacks d k h)
]

lines-Lacks :
    (d : Dict String) (ks : List String)
    → All IsSetting d
    → All (Lacks "\n") ks
    → All (Lacks "\n") (config_lines d ks)
unfolding config_lines
lines-Lacks d [] h hs = tt
lines-Lacks d (k ∷ ks) h (hk, hs) = (
  Lacks-append "\n" k _ hk (
      Lacks-append "\n" "=" _ (one_line, tt)
        (Lacks-append "\n" (get_text d k) "" (get_text-Lacks d k h) tt)),
  lines-Lacks d ks h hs,
)

split_lines :
    (lines : List String)
    → lines ≢ []
    → All (Lacks "\n") lines
    → split (join "\n" lines) "\n" ≡ lines
split_lines [] full h = absurd (full refl)
split_lines (l ∷ lines) full (hl, h) = split-join "\n" l lines hl h

some_line : (d : Dict String) (j : String) (l : List String) → config_lines d (insert_key j l) ≢ []
unfolding config_lines
some_line d j [] = ground arith
some_line d j (i ∷ l) = ground arith

-- A map of settings that has one, written as nvmesh.conf and read again, gives every key the value that
-- it had, and no key a value that had none. A setting's key has no equals sign, and neither key nor
-- value has a line break.
pub get-config_round_trip :
    (p : String × String) (d : Dict String) (k : String)
    → All IsSetting (p ∷ d)
    → get (config_string_to_dict (config_dict_to_string (p ∷ d))) k ≡ get (p ∷ d) k
unfolding config_string_to_dict config_dict_to_string sort_keys get
get-config_round_trip p d k h =
    let whole : Dict String = p ∷ d in
    let sorted = sort_keys (keys whole) in
    let lines = config_lines whole sorted in
    ap (λ l. get (add_lines [] l) k)
      (split_lines lines (some_line whole p.0 (sort_keys (keys d))) (
        lines-Lacks whole sorted h
          (All-sort_keys _ (keys whole) (keys-Lacks "\n" (λ q s. s.1) whole h))))
    ∙ get-add_lines whole [] sorted k
        (All-sort_keys _ (keys whole) (keys-Lacks "=" (λ q s. s.0) whole h))
    ∙ found
  where
    found :
        (if contains (sort_keys (keys (p ∷ d))) k then some (get_text (p ∷ d) k) else none)
        ≡ get (p ∷ d) k
    found = ground (arith, contains-sort_keys (keys (p ∷ d)) k, contains-keys (p ∷ d) k)
