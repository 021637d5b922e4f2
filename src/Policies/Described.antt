-- ===== src/Policies/Described.antt =====
-- What a policy is, described apart from the validator.
use loopstorm_guard.Common.{◌≡◌, ◌⊎◌, String, Bool, true, false, Option, some}
use loopstorm_guard.Policies.Content.{
  Value, undefined, null, array, Values, nil, cons, get_member, is_defined, is_object, is_one,
  is_positive, is_text, is_name, is_truthy,
}
use loopstorm_guard.Policies.Validate.{is_action, escalate_to_human_tool}

abbrev pub Each : (Value → Type 0) → Values → Type 0
Each P nil = Unit
Each P (cons v vs) = P v × Each P vs

-- A rule has a name and an action, and not two tool fields.
abbrev pub IsRule : Value → Type 0
IsRule rule =
    (is_object rule ≡ true)
    × (is_name (get_member "name" rule) ≡ true)
    × (is_action (get_member "action" rule) ≡ true)
    × ((is_defined (get_member "tool" rule) ≡ false)
        ⊎ (is_defined (get_member "tool_pattern" rule) ≡ false))

-- A limit that is given has a positive hard limit and no soft limit but a positive one.
abbrev pub IsDimension : Value → String → Type 0
IsDimension budget dim =
    (is_defined (get_member dim budget) ≡ false)
    ⊎ ((is_object (get_member dim budget) ≡ true)
        × (is_positive (get_member "hard" (get_member dim budget)) ≡ true)
        × ((is_defined (get_member "soft" (get_member dim budget)) ≡ false)
            ⊎ (is_positive (get_member "soft" (get_member dim budget)) ≡ true)))

abbrev pub IsBudget : Value → Type 0
IsBudget undefined = Unit
IsBudget null = ⊥
IsBudget v =
    IsDimension v "cost_usd"
    × IsDimension v "input_tokens"
    × IsDimension v "output_tokens"
    × IsDimension v "call_count"

abbrev pub IsRules : (Value → Type 0) → Value → Type 0
IsRules P (array (cons v vs)) = P v × Each P vs
IsRules P v = ⊥

-- A rule that names `escalate_to_human`, or has a pattern that matches it, and denies.
abbrev pub Blocks : (Value → String → Option Bool) → Value → Type 0
Blocks picomatch rule =
    (is_text "deny" (get_member "action" rule) ≡ true)
    × ((is_text escalate_to_human_tool (get_member "tool" rule) ≡ true)
        ⊎ ((is_truthy (get_member "tool_pattern" rule) ≡ true)
            × (picomatch (get_member "tool_pattern" rule) escalate_to_human_tool ≡ some true)))

-- A well-formed policy none of whose rules denies `escalate_to_human` by its name or a pattern. A
-- deny rule with neither is allowed.
abbrev pub IsPolicy : (Value → String → Option Bool) → Value → Type 0
IsPolicy picomatch content =
    (is_one (get_member "schema_version" content) ≡ true)
    × IsRules (λ rule. IsRule rule × ¬ Blocks picomatch rule) (get_member "rules" content)
    × IsBudget (get_member "budget" content)
