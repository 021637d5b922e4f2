-- ===== src/Policies/Accepted.antt =====
-- Which contents the validator accepts.
use loopstorm_guard.Policies.Described.{IsRule, IsBudget, IsRules, Blocks, IsPolicy}
use loopstorm_guard.Policies.Checks.{append_nil_iff, require_iff, check_rules_iff, check_budget_iff}
use loopstorm_guard.Common.{
  ◌≡◌, ◌↔◌, String, Bool, true, false, not, Option, none, some, List, [], ◌∷◌, ◌++◌, arith,
}
use loopstorm_guard.Policies.Content.{
  Value, undefined, null, boolean, number, text, array, object, Values, nil, cons, get_member,
  is_one,
}
use loopstorm_guard.Policies.Validate.{
  PolicyValidationError, PolicyValidationResult, valid, require, check_rules, check_budget,
  validate_against_schema, check_escalate_to_human_invariant, is_empty, rules_of, validate_policy,
  result_of, schema_errors, with_budget, check_version, top, missing_rules, empty_rules,
  invalid_schema_version,
}

result_iff :
    (es fs : List PolicyValidationError)
    → (result_of (some es) fs ≡ valid) ↔ ((es ≡ []) × (fs ≡ []))
result_iff [] [] = ground arith
result_iff [] (f ∷ fs) = ground arith
result_iff (e ∷ es) fs = ground arith

module _ (picomatch : Value → String → Option Bool) (version budget : Value) where
  outcome : Value → PolicyValidationResult
  outcome rules =
      result_of (schema_errors version rules budget)
        (check_escalate_to_human_invariant picomatch 0 (rules_of rules))

  array_errors_iff :
      (rules : Values) (o : Option (List PolicyValidationError)) (fs : List PolicyValidationError)
      → (result_of
            (with_budget
              (check_version version
                ++ (require (not (is_empty rules)) (top "rules") empty_rules
                    ++ check_rules 0 rules))
              o)
            fs
          ≡ valid)
        ↔ ((is_one version ≡ true)
            × (is_empty rules ≡ false)
            × (check_rules 0 rules ≡ [])
            × (o ≡ some [])
            × (fs ≡ []))
  array_errors_iff rules none fs = ground arith
  array_errors_iff rules (some bs) fs = ground (
    arith,
    result_iff
        ((check_version version
            ++ (require (not (is_empty rules)) (top "rules") empty_rules ++ check_rules 0 rules))
          ++ bs)
        fs,
    append_nil_iff
        (check_version version
          ++ (require (not (is_empty rules)) (top "rules") empty_rules ++ check_rules 0 rules))
        bs,
    append_nil_iff (check_version version)
        (require (not (is_empty rules)) (top "rules") empty_rules ++ check_rules 0 rules),
    append_nil_iff (require (not (is_empty rules)) (top "rules") empty_rules) (check_rules 0 rules),
    require_iff (is_one version) (top "schema_version") invalid_schema_version,
    require_iff (not (is_empty rules)) (top "rules") empty_rules,
  )

  array_iff :
      (rules : Values)
      → (outcome (array rules) ≡ valid) ↔ (
          (is_one version ≡ true)
          × IsRules (λ rule. IsRule rule × ¬ Blocks picomatch rule) (array rules)
          × IsBudget budget)
  unfolding outcome schema_errors
  array_iff nil = ground (arith, array_errors_iff nil (check_budget budget) [])
  array_iff (cons rule rest) = ground (
    arith,
    array_errors_iff (cons rule rest) (check_budget budget)
        (check_escalate_to_human_invariant picomatch 0 (cons rule rest)),
    check_rules_iff picomatch 0 (cons rule rest),
    check_budget_iff budget,
  )

  no_rules :
      (fs : List PolicyValidationError)
      → ¬ (
          result_of (some (check_version version ++ require false (top "rules") missing_rules)) fs
          ≡ valid)
  no_rules fs = ground (
    arith,
    append_nil_iff (check_version version) (require false (top "rules") missing_rules),
    result_iff (check_version version ++ require false (top "rules") missing_rules) fs,
  )

  outcome_iff :
      (rules : Value)
      → (outcome rules ≡ valid) ↔ (
          (is_one version ≡ true)
          × IsRules (λ rule. IsRule rule × ¬ Blocks picomatch rule) rules
          × IsBudget budget)
  unfolding outcome schema_errors
  outcome_iff (array rules) = array_iff rules
  outcome_iff undefined =
      ground (arith, no_rules (check_escalate_to_human_invariant picomatch 0 nil))
  outcome_iff null = ground (arith, no_rules (check_escalate_to_human_invariant picomatch 0 nil))
  outcome_iff (boolean b) =
      ground (arith, no_rules (check_escalate_to_human_invariant picomatch 0 nil))
  outcome_iff (number n) =
      ground (arith, no_rules (check_escalate_to_human_invariant picomatch 0 nil))
  outcome_iff (text s) =
      ground (arith, no_rules (check_escalate_to_human_invariant picomatch 0 nil))
  outcome_iff (object ms) =
      ground (arith, no_rules (check_escalate_to_human_invariant picomatch 0 nil))

-- The validator accepts exactly the policies: contents with the schema version 1, at least one rule,
-- only well-formed rules, a well-formed budget if any, and no rule that denies `escalate_to_human` by
-- its name or by a pattern that picomatch matches with it.
pub validate_policy_iff :
    (picomatch : Value → String → Option Bool) (content : Value)
    → (validate_policy picomatch content ≡ valid) ↔ IsPolicy picomatch content
unfolding validate_policy validate_against_schema outcome
validate_policy_iff picomatch content =
    outcome_iff picomatch (get_member "schema_version" content) (get_member "budget" content)
      (get_member "rules" content)
