-- ===== src/Shim/Jcs.antt =====
-- `jcsSerialize` of packages/ipc-client/src/jcs.ts and `argsHash` of args-hash.ts. The result is
-- `none` where a TypeError is thrown.
use loopstorm_guard.Common.{String, Bool, true, false, Option, none, some, List, [], ◌∷◌}
use loopstorm_guard.Json.{
  Json, null, undefined, boolean, number, infinite, str, arr, obj, Items, nil, cons, Fields, end,
  field, quote, print_object, join_commas, ◌<>◌,
}

abbrev print_boolean : Bool → String
print_boolean true = "true"
print_boolean false = "false"

abbrev pub and_then {ℓ κ} : {A : Type ℓ} {B : Type κ} → Option A → (A → Option B) → Option B
and_then none f = none
and_then (some a) f = f a

unfoldable mutual
  pub jcs_serialize : Json → Option String
  jcs_serialize null = some "null"
  jcs_serialize undefined = some "null"
  jcs_serialize (boolean b) = some (print_boolean b)
  jcs_serialize (number n) = some n
  jcs_serialize infinite = none
  jcs_serialize (str s) = some (quote s)
  jcs_serialize (arr xs) =
      and_then (serialize_items xs) (λ texts. some ("[" <> join_commas texts <> "]"))
  jcs_serialize (obj fs) = and_then (serialize_fields fs) (λ pairs. some (print_object pairs))

  pub serialize_items : Items → Option (List String)
  serialize_items nil = some []
  serialize_items (cons x xs) =
      and_then (jcs_serialize x) (λ t. and_then (serialize_items xs) (λ ts. some (t ∷ ts)))

  pub serialize_fields : Fields → Option (List (String × String))
  serialize_fields end = some []
  serialize_fields (field k v fs) =
      and_then (jcs_serialize v) (λ t. and_then (serialize_fields fs) (λ ps. some ((k, t) ∷ ps)))

-- `args ?? null` is hashed.
unfoldable pub args_hash : (String → String) → Option Json → Option String
unfolding jcs_serialize
args_hash sha256 none = some (sha256 "null")
args_hash sha256 (some args) = and_then (jcs_serialize args) (λ canonical. some (sha256 canonical))
