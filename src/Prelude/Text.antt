-- ===== src/Prelude/Text.antt =====
-- Text as the program builds it: concatenation of pieces, `strings.Join`, `strings.Split` at one
-- character and `strings.ReplaceAll` of one character by another.
pub mod Splitting
use Prim.Native.Nat.{ℕ, zero, suc, ◌-◌, compare, Ordering}
use Prim.Native.Char.{Char, code}
use Prim.Native.String.{String, ◌++◌, count}
use text.Mathlib.Text.{starts_with}
use mathlib.Core.Bool.{Bool, true, false}
use mathlib.Core.List.{List, [], ◌∷◌}
use nvmesh_k8s_operator.Prelude.Tests.{if◌then◌else◌}

-- The pieces, one after another: what `+` and `fmt.Sprintf` with `%s` build.
abbrev pub concat : List String → String
concat [] = ""
concat (s ∷ rest) = s ++ concat rest

-- strings.Join(lines, sep)
unfoldable pub join : String → List String → String
join sep [] = ""
join sep (s ∷ []) = s
join sep (s ∷ t ∷ rest) = s ++ (sep ++ join sep (t ∷ rest))

abbrev pub char_eq : Char → Char → Bool
char_eq c d = elim (compare (code c) (code d)) [ Ordering.eq ↦ true | _ ↦ false ]

-- strings.ReplaceAll(s, old, new) for one-character strings
unfoldable pub replace_all : Char → Char → String → String
replace_all old new String.[] = ""
replace_all old new (String.◌∷◌ c s) =
    let rest = replace_all old new s in
    elim (char_eq c old) [ true ↦ String.◌∷◌ new rest | false ↦ String.◌∷◌ c rest ]

-- s[1:] of a text that begins with an ASCII character
abbrev pub drop_first : String → String
drop_first String.[] = ""
drop_first (String.◌∷◌ c s) = s

letters : List (Char × Char)
letters =
    ("A", "a")
    ∷ ("B", "b")
    ∷ ("C", "c")
    ∷ ("D", "d")
    ∷ ("E", "e")
    ∷ ("F", "f")
    ∷ ("G", "g")
    ∷ ("H", "h")
    ∷ ("I", "i")
    ∷ ("J", "j")
    ∷ ("K", "k")
    ∷ ("L", "l")
    ∷ ("M", "m")
    ∷ ("N", "n")
    ∷ ("O", "o")
    ∷ ("P", "p")
    ∷ ("Q", "q")
    ∷ ("R", "r")
    ∷ ("S", "s")
    ∷ ("T", "t")
    ∷ ("U", "u")
    ∷ ("V", "v")
    ∷ ("W", "w")
    ∷ ("X", "x")
    ∷ ("Y", "y")
    ∷ ("Z", "z")
    ∷ []

lower_char : List (Char × Char) → Char → Char
lower_char [] c = c
lower_char ((upper, lower) ∷ rest) c = if char_eq upper c then lower else lower_char rest c

-- strings.ToLower of an ASCII text
unfoldable pub to_lower : String → String
unfolding lower_char letters
to_lower String.[] = ""
to_lower (String.◌∷◌ c s) = String.◌∷◌ (lower_char letters c) (to_lower s)

push : Char → List String → List String
push c [] = []
push c (piece ∷ rest) = String.◌∷◌ c piece ∷ rest

-- `skip` characters of a separator that was found are still to be passed over.
split_from : ℕ → String → String → List String
split_from skip sep String.[] = "" ∷ []
split_from (suc skip) sep (String.◌∷◌ c s) = split_from skip sep s
split_from zero sep (String.◌∷◌ c s) = elim (starts_with (String.◌∷◌ c s) sep) [
  | true ↦ "" ∷ split_from (count sep - 1) sep s
  | false ↦ push c (split_from zero sep s)
]

-- strings.Split(s, sep) for a separator that is not empty
unfoldable pub split : String → String → List String
unfolding split_from push
split s sep = split_from 0 sep s
