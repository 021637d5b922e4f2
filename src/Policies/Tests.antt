-- ===== src/Policies/Tests.antt =====
-- Concrete policies and updates.
use loopstorm_guard.Common.{
  ◌≡◌, ◌↔◌, refl, String, Bool, true, false, ◌||◌, Option, none, some, List, [], ◌∷◌, str_eq, All,
  ap,
}
use loopstorm_guard.Policies.Content.{
  Value, undefined, null, number, text, array, object, nil, cons, end, member,
}
use loopstorm_guard.Policies.Validate.{
  valid, invalid, threw, validate_policy, validate_against_schema, schema_errors, check_rules,
  check_escalate_to_human_invariant, in_rule, in_dimension, escalate_to_human_blocked,
  invalid_budget_hard_limit, missing_rule_name, invalid_schema_version, missing_rules, top,
}
use loopstorm_guard.Policies.Described.{IsPolicy}
use loopstorm_guard.Policies.Accepted.{validate_policy_iff}
use loopstorm_guard.Policies.Router.{
  PolicyPack, CreateInput, UpdateInput, done, refused, conflict, update_policy, created, updated,
  PolicyAnswer, PolicyFailure,
}
use loopstorm_guard.Policies.History.{create, update, run, run-AllPolicies}
use loopstorm_guard.Policies.Versions.{second_update-refused}
use loopstorm_guard.Review.Table.{first_where, update_where}

-- A matcher that knows `*` and plain names.
abbrev star : Value → String → Option Bool
star (text p) s = some (str_eq p "*" || str_eq p s)
star v s = none

abbrev one : Value
one = number (record { negative = false; numerator = 1; denominator = 1 })

abbrev minus_one : Value
minus_one = number (record { negative = true; numerator = 1; denominator = 1 })

abbrev rule : String → String → String → String → Value
rule name action key tool =
    object (member "name" (text name) (member "action" (text action) (member key (text tool) end)))

abbrev content : Value → Value → Value
content r budget =
    object (
      member "schema_version" one
        (member "rules" (array (cons r nil)) (member "budget" budget end)))

abbrev no_shell : Value
no_shell = content (rule "no shell" "deny" "tool" "shell") undefined

abbrev cost : Value → Value
cost hard = object (member "cost_usd" (object (member "hard" hard end)) end)

no_shell-valid : validate_policy star no_shell ≡ valid
unfolding validate_policy validate_against_schema schema_errors check_rules
    check_escalate_to_human_invariant
no_shell-valid = refl

deny_all_invalid :
    validate_policy star (content (rule "all" "deny" "tool_pattern" "*") undefined)
    ≡ invalid (record { path = in_rule 0 "tool_pattern"; code = escalate_to_human_blocked } ∷ [])
unfolding validate_policy validate_against_schema schema_errors check_rules
    check_escalate_to_human_invariant
deny_all_invalid = refl

approval_of_all_valid :
    validate_policy star (content (rule "all" "require_approval" "tool_pattern" "*") undefined)
    ≡ valid
unfolding validate_policy validate_against_schema schema_errors check_rules
    check_escalate_to_human_invariant
approval_of_all_valid = refl

negative_cost_invalid :
    validate_policy star (content (rule " " "allow" "tool" "x") (cost minus_one))
    ≡ invalid (
        record { path = in_rule 0 "name"; code = missing_rule_name }
        ∷ record { path = in_dimension "cost_usd" "hard"; code = invalid_budget_hard_limit }
        ∷ [])
unfolding validate_policy validate_against_schema schema_errors check_rules
    check_escalate_to_human_invariant
negative_cost_invalid = refl

null_budget_threw : validate_policy star (content (rule "a" "allow" "tool" "x") null) ≡ threw
unfolding validate_policy validate_against_schema schema_errors check_rules
    check_escalate_to_human_invariant
null_budget_threw = refl

empty_object_invalid :
    validate_policy star (object end)
    ≡ invalid (
        record { path = top "schema_version"; code = invalid_schema_version }
        ∷ record { path = top "rules"; code = missing_rules }
        ∷ [])
unfolding validate_policy validate_against_schema schema_errors check_rules
    check_escalate_to_human_invariant
empty_object_invalid = refl

abbrev draft : CreateInput
draft = record {
  name = "shell";
  description = none;
  agent_role = none;
  environment = none;
  content = no_shell;
  is_active = true;
}

abbrev pack : PolicyPack
pack = created draft "p1" "t1" "u1" 10

abbrev rename : String → UpdateInput
rename name = record {
  id = "p1";
  version = 1;
  name = some name;
  description = none;
  agent_role = some none;
  environment = none;
  content = none;
  is_active = some false;
}

renamed :
    update_policy star (rename "a") "t1" 20 (pack ∷ []) (pack ∷ [])
    ≡ (updated (rename "a") 1 20 pack ∷ [], done (updated (rename "a") 1 20 pack))
unfolding update_policy first_where update_where
renamed = refl

stale_refused :
    (update_policy star (rename "b") "t1" 30 (pack ∷ []) (updated (rename "a") 1 20 pack ∷ [])).1
    ≡ refused conflict
unfolding update_policy first_where update_where
stale_refused = refl

validate_policy_iff_example : (validate_policy star no_shell ≡ valid) ↔ IsPolicy star no_shell
validate_policy_iff_example = validate_policy_iff star no_shell

run-AllPolicies_example :
    All
      (λ p. IsPolicy star p.content)
      (run star (create draft "p1" "t1" "u1" 10 ∷ update (rename "a") "t1" 20 (pack ∷ []) ∷ []) [])
run-AllPolicies_example =
    run-AllPolicies star
      (create draft "p1" "t1" "u1" 10 ∷ update (rename "a") "t1" 20 (pack ∷ []) ∷ []) [] tt

-- A deny rule without a tool and without a pattern is accepted, though it may match every tool.
deny_without_tool_valid :
    validate_policy star
      (content (object (member "name" (text "all") (member "action" (text "deny") end))) undefined)
    ≡ valid
unfolding validate_policy validate_against_schema schema_errors check_rules
    check_escalate_to_human_invariant
deny_without_tool_valid = refl

abbrev renamed_table : List PolicyPack
renamed_table =
    run star (create draft "p2" "t1" "u1" 25 ∷ [])
      (update_policy star (rename "a") "t1" 20 (pack ∷ []) (pack ∷ [])).0

second_update-refused_example :
    (failure : PolicyFailure) × (update_policy star (rename "b") "t1" 30 (pack ∷ []) renamed_table
      ≡ (renamed_table, refused failure))
second_update-refused_example =
    second_update-refused star (rename "a") "t1" 20 (pack ∷ []) (pack ∷ [])
      (updated (rename "a") 1 20 pack) (refl, tt)
      (ap (λ (q : List PolicyPack × PolicyAnswer). q.1) renamed)
      (create draft "p2" "t1" "u1" 25 ∷ []) (rename "b") "t1" 30 (pack ∷ []) refl refl
