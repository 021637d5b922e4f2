-- ===== src/Policies/Validate.antt =====
-- `validatePolicy` of packages/backend/src/lib/policy-validate.ts. The texts of the messages are
-- left out; picomatch is a parameter, which returns `none` where it throws.
use loopstorm_guard.Common.{
  ℕ, ◌+◌, String, Bool, true, false, ◌&&◌, ◌||◌, not, Option, none, some, List, [], ◌∷◌, ◌++◌,
  if◌then◌else◌,
}
use loopstorm_guard.Policies.Content.{
  Value, undefined, null, array, Values, nil, cons, get_member, is_defined, is_object, is_one,
  is_positive, is_text, is_name, is_truthy,
}

pub data PolicyErrorCode : Type 0 where
  invalid_schema_version : PolicyErrorCode
  missing_rules : PolicyErrorCode
  empty_rules : PolicyErrorCode
  invalid_rule : PolicyErrorCode
  missing_rule_name : PolicyErrorCode
  invalid_rule_action : PolicyErrorCode
  conflicting_tool_fields : PolicyErrorCode
  invalid_budget_dimension : PolicyErrorCode
  invalid_budget_hard_limit : PolicyErrorCode
  invalid_budget_soft_limit : PolicyErrorCode
  escalate_to_human_blocked : PolicyErrorCode

-- `rules[i]`, `rules[i].name`, `budget.cost_usd` and `budget.cost_usd.hard`.
pub data ErrorPath : Type 0 where
  top : String → ErrorPath
  in_rules : ℕ → ErrorPath
  in_rule : ℕ → String → ErrorPath
  in_budget : String → ErrorPath
  in_dimension : String → String → ErrorPath

pub record PolicyValidationError : Type 0 where
  pub path : ErrorPath
  pub code : PolicyErrorCode

-- `threw` is the TypeError of a budget that is `null`.
pub data PolicyValidationResult : Type 0 where
  valid : PolicyValidationResult
  invalid : List PolicyValidationError → PolicyValidationResult
  threw : PolicyValidationResult

-- One error unless the test holds.
abbrev pub require : Bool → ErrorPath → PolicyErrorCode → List PolicyValidationError
require true path code = []
require false path code = record { path = path; code = code } ∷ []

abbrev pub is_action : Value → Bool
is_action v = is_text "allow" v || (is_text "deny" v || is_text "require_approval" v)

abbrev pub check_rule : ℕ → Value → List PolicyValidationError
check_rule i rule =
    if is_object rule
    then require (is_name (get_member "name" rule)) (in_rule i "name") missing_rule_name
      ++ (require (is_action (get_member "action" rule)) (in_rule i "action") invalid_rule_action
          ++ require
              (not (
                is_defined (get_member "tool" rule) && is_defined (get_member "tool_pattern" rule)))
              (in_rules i) conflicting_tool_fields)
    else require false (in_rules i) invalid_rule

unfoldable pub check_rules : ℕ → Values → List PolicyValidationError
check_rules i nil = []
check_rules i (cons rule rest) = check_rule i rule ++ check_rules (i + 1) rest

abbrev pub check_dimension : String → Value → List PolicyValidationError
check_dimension dim budget =
    let value = get_member dim budget in
    if is_defined value
    then if is_object value
      then require (is_positive (get_member "hard" value)) (in_dimension dim "hard")
          invalid_budget_hard_limit
        ++ require
            (not (is_defined (get_member "soft" value)) || is_positive (get_member "soft" value))
            (in_dimension dim "soft") invalid_budget_soft_limit
      else require false (in_budget dim) invalid_budget_dimension
    else []

abbrev pub validate_budget : Value → List PolicyValidationError
validate_budget budget =
    check_dimension "cost_usd" budget
    ++ (check_dimension "input_tokens" budget
        ++ (check_dimension "output_tokens" budget ++ check_dimension "call_count" budget))

-- `none` stands for a TypeError.
abbrev pub check_budget : Value → Option (List PolicyValidationError)
check_budget undefined = some []
check_budget null = none
check_budget v = some (validate_budget v)

abbrev pub is_empty : Values → Bool
is_empty nil = true
is_empty (cons v vs) = false

abbrev pub with_budget :
    List PolicyValidationError
    → Option (List PolicyValidationError)
    → Option (List PolicyValidationError)
with_budget es none = none
with_budget es (some bs) = some (es ++ bs)

abbrev pub check_version : Value → List PolicyValidationError
check_version version = require (is_one version) (top "schema_version") invalid_schema_version

-- Without an array of rules nothing else is looked at.
unfoldable pub schema_errors : Value → Value → Value → Option (List PolicyValidationError)
unfolding check_rules
schema_errors version (array rules) budget =
    with_budget
      (check_version version
        ++ (require (not (is_empty rules)) (top "rules") empty_rules ++ check_rules 0 rules))
      (check_budget budget)
schema_errors version rules budget =
    some (check_version version ++ require false (top "rules") missing_rules)

unfoldable pub validate_against_schema : Value → Option (List PolicyValidationError)
unfolding schema_errors
validate_against_schema content =
    schema_errors (get_member "schema_version" content) (get_member "rules" content)
      (get_member "budget" content)

abbrev pub escalate_to_human_tool : String
escalate_to_human_tool = "escalate_to_human"

-- What the errors of the two steps come to.
abbrev pub result_of :
    Option (List PolicyValidationError) → List PolicyValidationError → PolicyValidationResult
result_of none es = threw
result_of (some (e ∷ es)) fs = invalid (e ∷ es)
result_of (some []) [] = valid
result_of (some []) (f ∷ fs) = invalid (f ∷ fs)

abbrev pub rules_of : Value → Values
rules_of (array rules) = rules
rules_of v = nil

module _ (picomatch : Value → String → Option Bool) where
  -- A pattern that picomatch refuses matches nothing.
  abbrev pub glob_matches_escalate_to_human : Value → Bool
  glob_matches_escalate_to_human pattern = elim (picomatch pattern escalate_to_human_tool) [
    | none ↦ false
    | some b ↦ b
  ]

  abbrev pub check_deny : ℕ → Value → List PolicyValidationError
  check_deny i rule =
      require (not (is_text escalate_to_human_tool (get_member "tool" rule))) (in_rule i "tool")
        escalate_to_human_blocked
      ++ require
          (not (
            is_truthy (get_member "tool_pattern" rule)
            && glob_matches_escalate_to_human (get_member "tool_pattern" rule)))
          (in_rule i "tool_pattern") escalate_to_human_blocked

  unfoldable pub check_escalate_to_human_invariant : ℕ → Values → List PolicyValidationError
  check_escalate_to_human_invariant i nil = []
  check_escalate_to_human_invariant i (cons rule rest) =
      (if is_text "deny" (get_member "action" rule) then check_deny i rule else [])
      ++ check_escalate_to_human_invariant (i + 1) rest

  -- The rule `escalate_to_human` is looked at only when the structure is right.
  unfoldable pub validate_policy : Value → PolicyValidationResult
  unfolding validate_against_schema check_escalate_to_human_invariant
  validate_policy content =
      result_of (validate_against_schema content)
        (check_escalate_to_human_invariant 0 (rules_of (get_member "rules" content)))
