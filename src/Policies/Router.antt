-- ===== src/Policies/Router.antt =====
-- The procedures of packages/backend/src/trpc/routers/policies.ts. Times are natural numbers.
use loopstorm_guard.Common.{
  ℕ, ◌+◌, String, Bool, true, ◌&&◌, Option, none, some, List, [], ◌∷◌, ◌++◌, ◌==◌, any, str_eq,
  if◌then◌else◌,
}
use loopstorm_guard.Paging.{Page, descending, list_page}
use loopstorm_guard.Policies.Content.{Value}
use loopstorm_guard.Policies.Validate.{
  PolicyValidationError, PolicyValidationResult, valid, invalid, threw, validate_policy,
}
use loopstorm_guard.Review.Table.{first_where, update_where}

pub record PolicyPack : Type 0 where
  pub id : String
  pub tenant_id : String
  pub name : String
  pub description : Option String
  pub agent_role : Option String
  pub environment : Option String
  pub content : Value
  pub schema_version : ℕ
  pub is_active : Bool
  pub version : ℕ
  pub created_by : String
  pub created_at : ℕ
  pub updated_at : ℕ

pub record CreateInput : Type 0 where
  pub name : String
  pub description : Option String
  pub agent_role : Option String
  pub environment : Option String
  pub content : Value
  pub is_active : Bool

-- A field that is `none` is not provided; `description`, `agent_role` and `environment` may be
-- provided as `null`.
pub record UpdateInput : Type 0 where
  pub id : String
  pub version : ℕ
  pub name : Option String
  pub description : Option (Option String)
  pub agent_role : Option (Option String)
  pub environment : Option (Option String)
  pub content : Option Value
  pub is_active : Option Bool

pub data PolicyFailure : Type 0 where
  not_found : PolicyFailure
  conflict : PolicyFailure
  bad_request : List PolicyValidationError → PolicyFailure
  internal_error : PolicyFailure

pub data PolicyAnswer : Type 0 where
  done : PolicyPack → PolicyAnswer
  refused : PolicyFailure → PolicyAnswer

abbrev pub is_own : String → String → PolicyPack → Bool
is_own id tenant_id p = str_eq p.id id && str_eq p.tenant_id tenant_id

-- The condition of the update.
abbrev pub is_current : String → String → ℕ → PolicyPack → Bool
is_current id tenant_id version p = is_own id tenant_id p && p.version == version

abbrev pub is_listed : String → Bool → PolicyPack → Bool
is_listed tenant_id active_only p =
    str_eq p.tenant_id tenant_id && (if active_only then p.is_active else true)

-- `policies.list`; the columns that are left out of the answer are not modelled apart.
unfoldable pub list_policies : String → Bool → ℕ → List PolicyPack → Option ℕ → Page PolicyPack
list_policies tenant_id active_only limit table cursor =
    list_page descending (λ p. p.created_at) (is_listed tenant_id active_only) limit cursor table

-- `policies.get`.
unfoldable pub get_policy : String → String → List PolicyPack → Option PolicyPack
get_policy id tenant_id table = first_where (is_own id tenant_id) table

-- `updateSet`, applied to a row; `existing` is the version that was read.
abbrev pub provided : {A : Type 0} → Option A → A → A
provided none a = a
provided (some b) a = b

abbrev pub updated : UpdateInput → ℕ → ℕ → PolicyPack → PolicyPack
updated input existing now p = record p {
  name = provided input.name p.name;
  description = provided input.description p.description;
  agent_role = provided input.agent_role p.agent_role;
  environment = provided input.environment p.environment;
  content = provided input.content p.content;
  is_active = provided input.is_active p.is_active;
  version = existing + 1;
  updated_at = now;
}

abbrev pub created : CreateInput → String → String → String → ℕ → PolicyPack
created input id tenant_id user_id now = record {
  id = id;
  tenant_id = tenant_id;
  name = input.name;
  description = input.description;
  agent_role = input.agent_role;
  environment = input.environment;
  content = input.content;
  schema_version = 1;
  is_active = input.is_active;
  version = 1;
  created_by = user_id;
  created_at = now;
  updated_at = now;
}

-- The failure of a validation, if it fails.
abbrev pub failure_of : PolicyValidationResult → Option PolicyFailure
failure_of valid = none
failure_of (invalid es) = some (bad_request es)
failure_of threw = some internal_error

module _ (picomatch : Value → String → Option Bool) where
  -- `policies.create` with the id that the database draws; an id that is taken fails the insert.
  unfoldable pub create_policy :
      CreateInput → String → String → String → ℕ → List PolicyPack → List PolicyPack × PolicyAnswer
  create_policy input id tenant_id user_id now table =
      elim (failure_of (validate_policy picomatch input.content)) [
        | some f ↦ (table, refused f)
        | none ↦ if any (λ p. str_eq p.id id) table then (table, refused internal_error) else (
          table ++ created input id tenant_id user_id now ∷ [],
          done (created input id tenant_id user_id now),
        )
      ]

  abbrev pub content_failure : Option Value → Option PolicyFailure
  content_failure none = none
  content_failure (some content) = failure_of (validate_policy picomatch content)

  -- The statement `update … where … returning`.
  abbrev pub write_update :
      UpdateInput → String → ℕ → ℕ → List PolicyPack → List PolicyPack × PolicyAnswer
  write_update input tenant_id existing now table = (
    update_where (is_current input.id tenant_id input.version) (updated input existing now) table,
    elim (first_where (is_current input.id tenant_id input.version) table) [
      | none ↦ refused conflict
      | some p ↦ done (updated input existing now p)
    ],
  )

  -- `policies.update`. `seen` is the table when the row is selected, `table` the table when it is
  -- updated; another transaction may have changed it in between.
  unfoldable pub update_policy :
      UpdateInput → String → ℕ → List PolicyPack → List PolicyPack → List PolicyPack × PolicyAnswer
  update_policy input tenant_id now seen table =
      elim (first_where (is_own input.id tenant_id) seen) [
        | none ↦ (table, refused not_found)
        | some existing ↦
            if existing.version == input.version
            then elim (content_failure input.content) [
              | some f ↦ (table, refused f)
              | none ↦ write_update input tenant_id existing.version now table
            ]
            else (table, refused conflict)
      ]
