-- ===== src/Policies/Checks.antt =====
-- The checks of the validator, one by one, against the description of a policy.
use loopstorm_guard.Policies.Described.{Each, IsRule, IsDimension, IsBudget, Blocks}
use loopstorm_guard.Common.{
  ℕ, ◌+◌, ◌≡◌, refl, ◌↔◌, ◌⊎◌, inl, inr, String, Bool, true, false, not, ◌&&◌, ◌||◌, Option, none,
  some, List, [], ◌∷◌, ◌++◌, arith, Bool-cases, if◌then◌else◌,
}
use loopstorm_guard.Policies.Content.{
  Value, undefined, null, boolean, number, text, array, object, Values, nil, cons, get_member,
  is_defined, is_object, is_positive, is_text, is_name, is_truthy,
}
use loopstorm_guard.Policies.Validate.{
  PolicyErrorCode, ErrorPath, require, is_action, check_rule, check_rules, check_dimension,
  validate_budget, check_budget, escalate_to_human_tool, check_deny,
  check_escalate_to_human_invariant, missing_rule_name, in_rule, in_rules, in_budget, in_dimension,
  invalid_rule_action, conflicting_tool_fields, invalid_budget_hard_limit,
  invalid_budget_soft_limit, escalate_to_human_blocked,
}

pub append_nil_iff {ℓ} : {A : Type ℓ} (xs ys : List A) → (xs ++ ys ≡ []) ↔ ((xs ≡ []) × (ys ≡ []))
append_nil_iff [] ys = ground arith
append_nil_iff (x ∷ xs) ys = ground arith

pub require_iff :
    (b : Bool) (p : ErrorPath) (c : PolicyErrorCode) → (require b p c ≡ []) ↔ (b ≡ true)
require_iff true p c = ground arith
require_iff false p c = ground arith

module _ (p q r : ErrorPath) (c d e : PolicyErrorCode) where
  -- The checks of a limit, by their outcomes.
  limit_checks :
      (h s t : Bool)
      → (require h p c ++ require (not s || t) q d ≡ []) ↔ ((h ≡ true) × ((s ≡ false) ⊎ (t ≡ true)))
  limit_checks false s t = ground arith
  limit_checks true false t = ground arith
  limit_checks true true t = ground (arith, require_iff t q d)

  -- The checks of a rule, by their outcomes.
  rule_checks :
      (n a t u : Bool)
      → (require n p c ++ (require a q d ++ require (not (t && u)) r e) ≡ [])
        ↔ ((n ≡ true) × (a ≡ true) × ((t ≡ false) ⊎ (u ≡ false)))
  rule_checks false a t u = ground arith
  rule_checks true false t u = ground arith
  rule_checks true true false u = ground arith
  rule_checks true true true false = ground arith
  rule_checks true true true true = ground arith

check_rule_iff : (i : ℕ) (rule : Value) → (check_rule i rule ≡ []) ↔ IsRule rule
check_rule_iff i rule = elim (Bool-cases (is_object rule)) [
  | inl e ↦
      let (to, from) =
        rule_checks (in_rule i "name") (in_rule i "action") (in_rules i) missing_rule_name
          invalid_rule_action conflicting_tool_fields (is_name (get_member "name" rule))
          (is_action (get_member "action" rule)) (is_defined (get_member "tool" rule))
          (is_defined (get_member "tool_pattern" rule)) in
      rw e (λ h. let (a, b, c) = to h in (refl, a, b, c), λ (o, a, b, c). from (a, b, c))
  | inr e ↦ rw e (ground arith)
]

check_dimension_iff :
    (dim : String) (budget : Value) → (check_dimension dim budget ≡ []) ↔ IsDimension budget dim
check_dimension_iff dim budget = elim (Bool-cases (is_defined (get_member dim budget))) [
  | inl e ↦ elim (Bool-cases (is_object (get_member dim budget))) [
    | inl t ↦
        let value = get_member dim budget in
        let (to, from) =
          limit_checks (in_dimension dim "hard") (in_dimension dim "soft") (in_budget dim)
            invalid_budget_hard_limit invalid_budget_soft_limit invalid_budget_soft_limit
            (is_positive (get_member "hard" value)) (is_defined (get_member "soft" value))
            (is_positive (get_member "soft" value)) in
        rw (e, t) (λ h. let (a, b) = to h in inr (refl, a, b), λ h. from (ground (arith, h)))
    | inr t ↦ rw (e, t) (ground arith)
  ]
  | inr e ↦ rw e (ground arith)
]

deny_checks :
    (p q : ErrorPath) (c : PolicyErrorCode) (a t u : Bool) (o : Option Bool)
    → ((if a
          then require (not t) p c ++ require (not (u && elim o [ none ↦ false | some b ↦ b ])) q c
          else [])
        ≡ [])
      ↔ (¬ ((a ≡ true) × ((t ≡ true) ⊎ ((u ≡ true) × (o ≡ some true)))))
deny_checks p q c false t u o = ground arith
deny_checks p q c true true u o = ground arith
deny_checks p q c true false false o = ground arith
deny_checks p q c true false true none = ground arith
deny_checks p q c true false true (some true) = ground arith
deny_checks p q c true false true (some false) = ground arith

module _ (picomatch : Value → String → Option Bool) where
  check_deny_iff :
      (i : ℕ) (rule : Value)
      → ((if is_text "deny" (get_member "action" rule) then check_deny picomatch i rule else [])
          ≡ [])
        ↔ (¬ Blocks picomatch rule)
  check_deny_iff i rule =
      deny_checks (in_rule i "tool") (in_rule i "tool_pattern") escalate_to_human_blocked
        (is_text "deny" (get_member "action" rule))
        (is_text escalate_to_human_tool (get_member "tool" rule))
        (is_truthy (get_member "tool_pattern" rule))
        (picomatch (get_member "tool_pattern" rule) escalate_to_human_tool)

  pub check_rules_iff :
      (i : ℕ) (rules : Values)
      → ((check_rules i rules ≡ []) × (check_escalate_to_human_invariant picomatch i rules ≡ []))
        ↔ Each (λ rule. IsRule rule × ¬ Blocks picomatch rule) rules
  unfolding check_rules check_escalate_to_human_invariant
  check_rules_iff i nil = (λ h. tt, λ h. (refl, refl))
  check_rules_iff i (cons rule rest) =
      let (to, from) = check_rules_iff (i + 1) rest in
      let (is_rule, of_rule) = check_rule_iff i rule in
      let (is_free, of_free) = check_deny_iff i rule in
      let (split, join) = append_nil_iff (check_rule i rule) (check_rules (i + 1) rest) in
      let (split', join') =
        append_nil_iff
          (if is_text "deny" (get_member "action" rule) then check_deny picomatch i rule else [])
          (check_escalate_to_human_invariant picomatch (i + 1) rest) in
      (
        λ (h, k).
            let (a, b) = split h in let (c, d) = split' k in ((is_rule a, is_free c), to (b, d)),
        λ ((a, c), e). let (b, d) = from e in (join (of_rule a, b), join' (of_free c, d)),
      )

validate_budget_iff :
    (v : Value)
    → (some (validate_budget v) ≡ some []) ↔ (
        IsDimension v "cost_usd"
        × IsDimension v "input_tokens"
        × IsDimension v "output_tokens"
        × IsDimension v "call_count")
validate_budget_iff v = ground (
  arith,
  append_nil_iff (check_dimension "cost_usd" v) (
      check_dimension "input_tokens" v
      ++ (check_dimension "output_tokens" v ++ check_dimension "call_count" v)),
  append_nil_iff (check_dimension "input_tokens" v)
      (check_dimension "output_tokens" v ++ check_dimension "call_count" v),
  append_nil_iff (check_dimension "output_tokens" v) (check_dimension "call_count" v),
  check_dimension_iff "cost_usd" v,
  check_dimension_iff "input_tokens" v,
  check_dimension_iff "output_tokens" v,
  check_dimension_iff "call_count" v,
)

pub check_budget_iff : (v : Value) → (check_budget v ≡ some []) ↔ IsBudget v
check_budget_iff undefined = ground arith
check_budget_iff null = ground arith
check_budget_iff (boolean b) = validate_budget_iff (boolean b)
check_budget_iff (number n) = validate_budget_iff (number n)
check_budget_iff (text s) = validate_budget_iff (text s)
check_budget_iff (array vs) = validate_budget_iff (array vs)
check_budget_iff (object ms) = validate_budget_iff (object ms)
