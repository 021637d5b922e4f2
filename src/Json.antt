-- ===== src/Json.antt =====
-- JSON texts: `deterministicStringify` of packages/backend/src/lib/chain-verify.ts. A number is
-- given by the text that `JSON.stringify` prints for it.
mod Tests
use Prim.Native.Char.{Char, code}
use Prim.Native.String
use Prim.Native.String.{String, [], ◌∷◌}
use mathlib.Core.List
use mathlib.Core.List.{List}
use loopstorm_guard.Common.{
  str_eq, ℕ, ◌+◌, ◌-◌, ◌/◌, ◌%◌, Bool, true, false, Option, none, some, ltb, leb, ◌==◌,
  if◌then◌else◌,
}

mutual
  pub data Json : Type 0 where
    null : Json
    undefined : Json
    boolean : Bool → Json
    number : String → Json
    infinite : Json
    str : String → Json
    arr : Items → Json
    obj : Fields → Json

  pub data Items : Type 0 where
    nil : Items
    cons : Json → Items → Items

  pub data Fields : Type 0 where
    end : Fields
    field : String → Json → Fields → Fields

infixl 65 ◌<>◌
abbrev pub ◌<>◌ : String → String → String
◌<>◌ = String.◌++◌

-- `parts.join(",")`.
pub join_commas : List String → String
join_commas List.[] = ""
join_commas (List.◌∷◌ x List.[]) = x
join_commas (List.◌∷◌ x (List.◌∷◌ y ys)) = x <> "," <> join_commas (List.◌∷◌ y ys)

hex_digit : ℕ → String
hex_digit n = elim (ltb n 10) [
  | true ↦ String.slice "0123456789" n (n + 1)
  | false ↦ String.slice "abcdef" (n - 10) (n - 9)
]

-- One character inside the quotes of `JSON.stringify(text)`.
escape : Char → String
unfolding hex_digit
escape c =
    let n = code c in
    if n == 34
    then "\\\""
    else if n == 92
    then "\\\\"
    else if n == 8
    then "\\b"
    else if n == 9
    then "\\t"
    else if n == 10
    then "\\n"
    else if n == 12
    then "\\f"
    else if n == 13
    then "\\r"
    else if ltb n 32
    then "\\u00" <> hex_digit (n / 16) <> hex_digit (n % 16)
    else c ∷ []

escape_all : String → String
unfolding escape
escape_all [] = ""
escape_all (c ∷ s) = escape c <> escape_all s

-- `JSON.stringify` of a string.
pub quote : String → String
unfolding escape_all
quote s = "\"" <> escape_all s <> "\""

-- The place of a character in the order of UTF-16 code units: a surrogate pair stands below the
-- characters from U+E000 on.
abbrev unit_rank : Char → ℕ
unit_rank c =
    let n = code c in if ltb n 0xd800 then n else if leb 0x10000 n then n - 0x2800 else n + 0x110000

-- The order of `Object.keys(…).sort()`.
pub key_le : String → String → Bool
key_le [] t = true
key_le (c ∷ s) [] = false
key_le (c ∷ s) (d ∷ t) =
    let rest = key_le s t in
    if ltb (unit_rank c) (unit_rank d)
    then true
    else if ltb (unit_rank d) (unit_rank c)
    then false
    else rest

pub insert_pair : String × String → List (String × String) → List (String × String)
insert_pair p List.[] = List.◌∷◌ p List.[]
insert_pair p (List.◌∷◌ q qs) =
    if key_le p.0 q.0 then List.◌∷◌ p (List.◌∷◌ q qs) else List.◌∷◌ q (insert_pair p qs)

pub sort_pairs : List (String × String) → List (String × String)
unfolding insert_pair key_le
sort_pairs List.[] = List.[]
sort_pairs (List.◌∷◌ p ps) = insert_pair p (sort_pairs ps)

abbrev member : String × String → String
member p = quote p.0 <> ":" <> p.1

-- The members of an object, their values printed, in the order of the keys.
pub print_object : List (String × String) → String
unfolding quote sort_pairs join_commas
print_object ps = "{" <> join_commas (List.map member (sort_pairs ps)) <> "}"

abbrev print_boolean : Bool → String
print_boolean true = "true"
print_boolean false = "false"

abbrev pub is_undefined : Json → Bool
is_undefined undefined = true
is_undefined _ = false

-- `deterministicStringify(value)`: members that are undefined are left out.
unfoldable mutual
  unfolding quote print_object join_commas

  pub deterministic_stringify : Json → String
  deterministic_stringify null = "null"
  deterministic_stringify undefined = "null"
  deterministic_stringify (boolean b) = print_boolean b
  deterministic_stringify (number n) = n
  deterministic_stringify infinite = "null"
  deterministic_stringify (str s) = quote s
  deterministic_stringify (arr xs) = "[" <> join_commas (stringify_items xs) <> "]"
  deterministic_stringify (obj fs) = print_object (stringify_fields fs)

  pub stringify_items : Items → List String
  stringify_items nil = List.[]
  stringify_items (cons x xs) = List.◌∷◌ (deterministic_stringify x) (stringify_items xs)

  pub stringify_fields : Fields → List (String × String)
  stringify_fields end = List.[]
  stringify_fields (field k v fs) =
      if is_undefined v
      then stringify_fields fs
      else List.◌∷◌ (k, deterministic_stringify v) (stringify_fields fs)

-- The member of a name, `undefined` where there is none.
abbrev pub get_field : String → Fields → Json
get_field name end = undefined
get_field name (field k v fs) = if str_eq k name then v else get_field name fs
