-- ===== src/Mgmt/Json.antt =====
-- json.MarshalIndent as the management's configuration uses it: maps of texts, numbers, switches and
-- maps, written with sorted keys and an indent of four spaces.
use Prim.Native.Char.{Char, code}
use Prim.Native.String.{compare}
use Prim.Native.Nat.{Ordering}
use nvmesh_k8s_operator.Prelude.{
  ℕ, zero, suc, ◌/◌, ◌%◌, String, Bool, true, false, List, [], ◌∷◌, if◌then◌else◌, concat, ltb,
  nat_eq, ◌||◌, ◌≡◌, refl,
}
use nvmesh_k8s_operator.Prelude.Decimal.{decimal}

mutual
  pub data Json : Type 0 where
    text : String → Json
    number : ℕ → Json
    boolean : Bool → Json
    object : Members → Json

  pub data Members : Type 0 where
    no_member : Members
    member : (key : String) → Json → Members → Members

-- A member put in by the order of the keys, over one of the same key: `m[key] = v`.
unfoldable pub with_member : String → Json → Members → Members
with_member key v no_member = member key v no_member
with_member key v (member k w members) = elim (compare key k) [
  | Ordering.lt ↦ member key v (member k w members)
  | Ordering.eq ↦ member key v members
  | Ordering.gt ↦ member k w (with_member key v members)
]

unfoldable pub members_of : List (String × Json) → Members → Members
unfolding with_member
members_of [] members = members
members_of ((key, v) ∷ assignments) members = members_of assignments (with_member key v members)

-- make(map[string]interface{}) and assignments
abbrev pub make_map : List (String × Json) → Json
make_map assignments = object (members_of assignments no_member)

abbrev hex_digits : List String
hex_digits =
    "0" ∷ "1" ∷ "2" ∷ "3" ∷ "4" ∷ "5" ∷ "6" ∷ "7" ∷ "8" ∷ "9" ∷ "a" ∷ "b" ∷ "c" ∷ "d" ∷ "e" ∷ "f"
    ∷ []

abbrev nth_text : List String → ℕ → String
nth_text [] n = ""
nth_text (s ∷ l) zero = s
nth_text (s ∷ l) (suc n) = nth_text l n

abbrev hex : ℕ → String
hex n = concat (nth_text hex_digits (n / 16) ∷ nth_text hex_digits (n % 16) ∷ [])

-- Go's encoder also escapes the characters of HTML and the two line separators of Unicode.
unfoldable pub escape_char : Char → String
escape_char c =
    let n = code c in
    if nat_eq n 34
    then "\\\""
    else if nat_eq n 92
    then "\\\\"
    else if nat_eq n 10
    then "\\n"
    else if nat_eq n 13
    then "\\r"
    else if nat_eq n 9
    then "\\t"
    else if ltb n 32 || nat_eq n 60 || nat_eq n 62 || nat_eq n 38
    then concat ("\\u00" ∷ hex n ∷ [])
    else if nat_eq n 8232
    then "\\u2028"
    else if nat_eq n 8233
    then "\\u2029"
    else String.◌∷◌ c ""

unfoldable pub escape : String → String
unfolding escape_char
escape String.[] = ""
escape (String.◌∷◌ c s) = concat (escape_char c ∷ escape s ∷ [])

abbrev quote : String → String
quote s = concat ("\"" ∷ escape s ∷ "\"" ∷ [])

abbrev format_bool : Bool → String
format_bool true = "true"
format_bool false = "false"

unfoldable mutual
  unfolding escape decimal

  pub marshal : (indent : String) → Json → String
  marshal indent (text s) = quote s
  marshal indent (number n) = decimal n
  marshal indent (boolean b) = format_bool b
  marshal indent (object no_member) = "{}"
  marshal indent (object (member k v members)) =
      let inner = concat (indent ∷ "    " ∷ []) in
      concat (
        "{\n"
        ∷ inner
        ∷ quote k
        ∷ ": "
        ∷ marshal inner v
        ∷ more_members inner members
        ∷ "\n"
        ∷ indent
        ∷ "}"
        ∷ [])

  pub more_members : (indent : String) → Members → String
  more_members indent no_member = ""
  more_members indent (member k v members) =
      concat (",\n" ∷ indent ∷ quote k ∷ ": " ∷ marshal indent v ∷ more_members indent members ∷ [])

unfoldable pub marshal_indent : Json → String
unfolding marshal
marshal_indent = marshal ""

marshal_example :
    marshal_indent (make_map (("b", number 5) ∷ ("a", make_map (("x", text "<\"") ∷ [])) ∷ []))
    ≡ "{\n    \"a\": {\n        \"x\": \"\\u003c\\\"\"\n    },\n    \"b\": 5\n}"
unfolding marshal_indent members_of
marshal_example = refl
