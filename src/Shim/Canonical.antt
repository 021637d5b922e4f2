-- ===== src/Shim/Canonical.antt =====
-- The two canonical forms of the repository: `jcsSerialize` of the shim, and
-- `deterministicStringify` of packages/backend/src/lib/chain-verify.ts.
use loopstorm_guard.Common.{◌≡◌, refl, Bool, true, false, ◌&&◌, not, some, arith}
use loopstorm_guard.Json.{
  Json, null, undefined, boolean, number, infinite, str, arr, obj, Items, nil, cons, Fields, end,
  field, deterministic_stringify, stringify_items, stringify_fields, is_undefined,
}
use loopstorm_guard.Shim.Jcs.{jcs_serialize, serialize_items, serialize_fields}

-- No number in the value is infinite, and no member is undefined.
unfoldable mutual
  pub is_plain : Json → Bool
  is_plain null = true
  is_plain undefined = true
  is_plain (boolean b) = true
  is_plain (number n) = true
  is_plain infinite = false
  is_plain (str s) = true
  is_plain (arr xs) = are_plain xs
  is_plain (obj fs) = have_plain fs

  pub are_plain : Items → Bool
  are_plain nil = true
  are_plain (cons x xs) = is_plain x && are_plain xs

  pub have_plain : Fields → Bool
  have_plain end = true
  have_plain (field k v fs) = not (is_undefined v) && (is_plain v && have_plain fs)

mutual
  unfolding is_plain jcs_serialize deterministic_stringify

  serialize-plain :
      (j : Json) → is_plain j ≡ true → jcs_serialize j ≡ some (deterministic_stringify j)
  serialize-plain null h = refl
  serialize-plain undefined h = refl
  serialize-plain (boolean true) h = refl
  serialize-plain (boolean false) h = refl
  serialize-plain (number n) h = refl
  serialize-plain infinite h = absurd (ground arith)
  serialize-plain (str s) h = refl
  serialize-plain (arr xs) h = rw (serialize_items-plain xs h) refl
  serialize-plain (obj fs) h = rw (serialize_fields-plain fs h) refl

  serialize_items-plain :
      (xs : Items) → are_plain xs ≡ true → serialize_items xs ≡ some (stringify_items xs)
  serialize_items-plain nil h = refl
  serialize_items-plain (cons x xs) h =
      rw (serialize-plain x (ground (arith, h)), serialize_items-plain xs (ground (arith, h))) refl

  serialize_fields-plain :
      (fs : Fields) → have_plain fs ≡ true → serialize_fields fs ≡ some (stringify_fields fs)
  serialize_fields-plain end h = refl
  serialize_fields-plain (field k v fs) h =
      let here : is_undefined v ≡ false = ground (arith, h) in
      rw
        (here, serialize-plain v (ground (arith, h)), serialize_fields-plain fs (ground (arith, h)))
        refl

-- On a value without infinite numbers and undefined members, the canonical form of the shim is that
-- of the backend: both hash the same text.
pub jcs_serialize-plain :
    (j : Json) → is_plain j ≡ true → jcs_serialize j ≡ some (deterministic_stringify j)
jcs_serialize-plain = serialize-plain
