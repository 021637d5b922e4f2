-- ===== src/ApiKeys/Keys.antt =====
-- The table of keys with its operations. `sha256` gives the hexadecimal SHA-256 of a text; the
-- random digits of a new key and its id are arguments. Texts are sliced by characters.
use Prim.Native.String
use Prim.Native.String.{[], ◌∷◌}
use loopstorm_guard.Common.{
  ℕ, zero, suc, ◌+◌, ◌*◌, String, Bool, true, false, ◌&&◌, not, Option, none, some, ltb, str_eq,
  any, filter, take, if◌then◌else◌,
}
use mathlib.Core.List.{List, ◌++◌}
use loopstorm_guard.Common.Texts.{trim}
use loopstorm_guard.Paging.{Page, descending, list_page}
use loopstorm_guard.Review.Table.{first_where, update_where}

infixl 65 ◌<>◌
abbrev pub ◌<>◌ : String → String → String
◌<>◌ = String.◌++◌

pub record ApiKey : Type 0 where
  pub id : String
  pub tenant_id : String
  pub user_id : String
  pub name : String
  pub key_prefix : String
  pub key_hash : String
  pub scopes : List String
  pub last_used_at : Option ℕ
  pub expires_at : Option ℕ
  pub is_revoked : Bool
  pub created_at : ℕ

pub record ApiKeyAuthResult : Type 0 where
  pub tenant_id : String
  pub api_key_id : String
  pub scopes : List String

pub record GeneratedApiKey : Type 0 where
  pub raw_key : String
  pub key_hash : String
  pub key_prefix : String

pub record NewKey : Type 0 where
  pub name : String
  pub scopes : List String
  pub expires_in_days : Option ℕ

-- What `apiKeys.create` returns: the raw key, once.
pub record CreatedKey : Type 0 where
  pub id : String
  pub key : String
  pub key_prefix : String

pub data Revocation : Type 0 where
  revoked : (id : String) → Revocation
  not_found : Revocation

-- `s.slice(0, n)` and `s.slice(n)`.
unfoldable pub take_chars : ℕ → String → String
take_chars zero s = ""
take_chars (suc n) [] = ""
take_chars (suc n) (c ∷ s) = c ∷ take_chars n s

unfoldable pub drop_chars : ℕ → String → String
drop_chars zero s = s
drop_chars (suc n) [] = ""
drop_chars (suc n) (c ∷ s) = drop_chars n s

abbrev pub raw_key : String → String
raw_key random_hex = "lsg_" <> random_hex

unfoldable pub generate_api_key : (String → String) → String → GeneratedApiKey
unfolding take_chars
generate_api_key sha256 random_hex = record {
  raw_key = raw_key random_hex;
  key_hash = sha256 (raw_key random_hex);
  key_prefix = take_chars 8 (raw_key random_hex);
}

abbrev expiry : Option ℕ → ℕ → Option ℕ
expiry none now = none
expiry (some days) now = some (now + days * 24 * 60 * 60 * 1000)

abbrev pub new_row : GeneratedApiKey → NewKey → String → String → String → ℕ → ApiKey
new_row g input id tenant_id user_id now = record {
  id = id;
  tenant_id = tenant_id;
  user_id = user_id;
  name = input.name;
  key_prefix = g.key_prefix;
  key_hash = g.key_hash;
  scopes = input.scopes;
  last_used_at = none;
  expires_at = expiry input.expires_in_days now;
  is_revoked = false;
  created_at = now;
}

abbrev created_key : GeneratedApiKey → String → CreatedKey
created_key g id = record { id = id; key = g.raw_key; key_prefix = g.key_prefix }

-- `apiKeys.create`; an id that is taken fails the insert.
unfoldable pub create_key :
    (String → String)
    → String
    → NewKey
    → String
    → String
    → String
    → ℕ
    → List ApiKey
    → List ApiKey × Option CreatedKey
unfolding generate_api_key
create_key sha256 random_hex input id tenant_id user_id now table =
    let g = generate_api_key sha256 random_hex in
    if any (λ k. str_eq k.id id) table then (table, none) else (
      table ++ List.◌∷◌ (new_row g input id tenant_id user_id now) List.[],
      some (created_key g id),
    )

-- `apiKeys.list`; the hash is not returned.
abbrev is_tenant_key : String → ApiKey → Bool
is_tenant_key tenant_id k = str_eq k.tenant_id tenant_id

unfoldable pub list_keys : String → ℕ → List ApiKey → Option ℕ → Page ApiKey
list_keys tenant_id limit table cursor =
    list_page descending (λ k. k.created_at) (is_tenant_key tenant_id) limit cursor table

abbrev pub is_own : String → String → ApiKey → Bool
is_own id tenant_id k = str_eq k.id id && str_eq k.tenant_id tenant_id

abbrev pub revoked_row : ApiKey → ApiKey
revoked_row k = record k { is_revoked = true }

-- `apiKeys.revoke`.
unfoldable pub revoke_key : String → String → List ApiKey → List ApiKey × Revocation
unfolding first_where update_where
revoke_key id tenant_id table = elim (first_where (is_own id tenant_id) table) [
  | none ↦ (table, not_found)
  | some existing ↦
      if existing.is_revoked
      then (table, revoked existing.id)
      else (update_where (is_own id tenant_id) revoked_row table, revoked id)
]

-- The key after `Bearer `, if the header begins with it and a key follows.
unfoldable pub key_of_header : Option String → Option String
unfolding take_chars drop_chars trim
key_of_header none = none
key_of_header (some header) =
    if str_eq (take_chars 7 header) "Bearer "
    then if str_eq (trim (drop_chars 7 header)) "" then none else some (trim (drop_chars 7 header))
    else none

abbrev pub is_candidate : String → ApiKey → Bool
is_candidate prefix k = str_eq k.key_prefix prefix && not k.is_revoked

abbrev pub is_expired : ℕ → ApiKey → Bool
is_expired now k = elim k.expires_at [ none ↦ false | some time ↦ ltb time now ]

-- The stored key that a raw key matches; at most five keys with its prefix are looked at.
unfoldable pub match_key : (String → String) → String → List ApiKey → Option ApiKey
unfolding take_chars first_where
match_key sha256 key table =
    first_where (λ k. str_eq k.key_hash (sha256 key))
      (take 5 (filter (is_candidate (take_chars 8 key)) table))

abbrev pub auth_result : ApiKey → ApiKeyAuthResult
auth_result k = record { tenant_id = k.tenant_id; api_key_id = k.id; scopes = k.scopes }

unfoldable pub check_expiry : ℕ → Option ApiKey → Option ApiKeyAuthResult
check_expiry now none = none
check_expiry now (some k) = if is_expired now k then none else some (auth_result k)

-- `authenticateApiKey`; the update of `last_used_at` is `touch`, which may fail.
unfoldable pub authenticate_api_key :
    (String → String) → Option String → ℕ → List ApiKey → Option ApiKeyAuthResult
unfolding key_of_header match_key check_expiry
authenticate_api_key sha256 header now table = elim (key_of_header header) [
  | none ↦ none
  | some key ↦ check_expiry now (match_key sha256 key table)
]

abbrev used_at : ℕ → ApiKey → ApiKey
used_at now k = record k { last_used_at = some now }

unfoldable pub touch : ApiKeyAuthResult → ℕ → List ApiKey → List ApiKey
unfolding update_where
touch r now table = update_where (λ k. str_eq k.id r.api_key_id) (used_at now) table
