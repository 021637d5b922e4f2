-- ===== src/Triggers/MidRun.antt =====
-- The mid-run evaluator returns exactly the triggers whose condition holds, sorted.
use loopstorm_guard.Common.{
  ℕ, ◌*◌, ◌≤◌, ◌<◌, ◌≡◌, ◌↔◌, inl, inr, refl, String, true, false, Option, none, some, List, arith,
  str_eq_iff,
}
use loopstorm_guard.Common.Dict
use loopstorm_guard.Common.Sort.{Any-sort_by}
use text.Mathlib.Text.{starts_with}
use loopstorm_guard.Triggers.{
  TriggerResult, RunSummary, NewEvent, RunningCounters, Rate, sort_by_priority, mid_run_fired,
  evaluate_mid_run_triggers, is_deny_spike, rate_above, is_repeated_rule, builtin_prefix,
  count_or_zero,
}
use loopstorm_guard.Triggers.Fired.{Has, IsOver, is_over_iff, fire_iff, split, here, there}

-- The deny rate `deny / total` is above the threshold: three times the average, or one half.
abbrev pub IsAbove : ℕ → ℕ → Option Rate → Type 0
IsAbove deny total none = total < 2 * deny
IsAbove deny total (some avg) = 3 * avg.num * total < deny * avg.den

rate_above_iff :
    (deny total : ℕ) (avg : Option Rate)
    → (rate_above deny total avg ≡ true) ↔ ((0 < total) × IsAbove deny total avg)
unfolding rate_above
rate_above_iff deny total none = ground arith
rate_above_iff deny total (some avg) = ground arith

abbrev pub IsSpike : RunningCounters → Option Rate → Type 0
IsSpike c avg =
    (5 ≤ c.deny_count) × (0 < c.total_decisions) × IsAbove c.deny_count c.total_decisions avg

is_deny_spike_iff :
    (c : RunningCounters) (avg : Option Rate) → (is_deny_spike c avg ≡ true) ↔ IsSpike c avg
unfolding is_deny_spike
is_deny_spike_iff c avg = ground (arith, rate_above_iff c.deny_count c.total_decisions avg)

-- The event's rule is set, is not a built-in one, and has fired three times.
abbrev pub IsRepeated : Option String → List (String × ℕ) → Type 0
IsRepeated rule counts =
    (r : String) × (rule ≡ some r)
    × (starts_with r builtin_prefix ≡ false)
    × (3 ≤ count_or_zero (Dict.get r counts))

is_repeated_rule_iff :
    (rule : Option String) (counts : List (String × ℕ))
    → (is_repeated_rule rule counts ≡ true) ↔ IsRepeated rule counts
unfolding is_repeated_rule
is_repeated_rule_iff none counts = (λ h. cc, λ h. absurd (no h.0 h.1))
  where
    no : (r : String) → none ≡ some r → ⊥
    no r e = cc
is_repeated_rule_iff (some rule) counts =
    (λ h. (rule, refl, ground arith, ground arith), λ h. from h.0 h.1 h.2 h.3)
  where
    from :
        (r : String)
        → some rule ≡ some r
        → starts_with r builtin_prefix ≡ false
        → 3 ≤ count_or_zero (Dict.get r counts)
        → is_repeated_rule (some rule) counts ≡ true
    from r e b n = let same : rule ≡ r = ground arith in rw same (ground arith)

-- When a mid-run trigger fires.
pub data DueMidRun (run : RunSummary) (event : NewEvent) (c : RunningCounters) (avg : Option Rate)
    (cap : Option ℕ) (t : TriggerResult) : Type 0 where
  budget_warning :
      IsOver 7 run.total_cost cap
      → t ≡ record { trigger = "budget_warning"; priority = 2 }
      → DueMidRun run event c avg cap t
  loop_detected :
      event.event_type ≡ "loop_detected"
      → t ≡ record { trigger = "loop_detected"; priority = 2 }
      → DueMidRun run event c avg cap t
  deny_spike :
      IsSpike c avg
      → t ≡ record { trigger = "deny_spike"; priority = 2 }
      → DueMidRun run event c avg cap t
  repeated_rule :
      IsRepeated event.rule_id c.rule_id_counts
      → t ≡ record { trigger = "repeated_rule"; priority = 3 }
      → DueMidRun run event c avg cap t

module _ (run : RunSummary) (event : NewEvent) (c : RunningCounters) (avg : Option Rate)
    (cap : Option ℕ) where
  module _ (t : TriggerResult) where
    mid_run_sound : Has (mid_run_fired run event c avg cap) t → DueMidRun run event c avg cap t
    unfolding mid_run_fired
    mid_run_sound h = elim (split _ _ _ t _ h) [
      | inl f ↦ budget_warning ((is_over_iff _ _ _).0 f.0) f.1
      | inr h ↦ elim (split _ _ _ t _ h) [
        | inl f ↦ loop_detected ((str_eq_iff _ _).0 f.0) f.1
        | inr h ↦ elim (split _ _ _ t _ h) [
          | inl f ↦ deny_spike ((is_deny_spike_iff c avg).0 f.0) f.1
          | inr h ↦
              let f = (fire_iff _ _ _ t).0 h in repeated_rule ((is_repeated_rule_iff _ _).0 f.0) f.1
        ]
      ]
    ]

    mid_run_complete : DueMidRun run event c avg cap t → Has (mid_run_fired run event c avg cap) t
    unfolding mid_run_fired
    mid_run_complete (budget_warning k e) = here _ _ _ t _ ((is_over_iff _ _ _).1 k, e)
    mid_run_complete (loop_detected k e) =
        there _ _ _ t _ (here _ _ _ t _ ((str_eq_iff _ _).1 k, e))
    mid_run_complete (deny_spike k e) =
        there _ _ _ t _ (there _ _ _ t _ (here _ _ _ t _ ((is_deny_spike_iff c avg).1 k, e)))
    mid_run_complete (repeated_rule k e) = there _ _ _ t _ (
        there _ _ _ t _
          (there _ _ _ t _ ((fire_iff _ _ _ t).1 ((is_repeated_rule_iff _ _).1 k, e))))

    -- A mid-run trigger is returned exactly when its condition holds: a cost above 70 % of a cap
    -- that is set, a loop event, a deny spike (at least five denies, and a rate above the
    -- threshold), or a rule that is not built in and has fired three times.
    pub evaluate_mid_run_iff :
        Has (evaluate_mid_run_triggers run event c avg cap) t ↔ DueMidRun run event c avg cap t
    unfolding evaluate_mid_run_triggers sort_by_priority Has
    evaluate_mid_run_iff =
        let (to, from) =
          Any-sort_by (λ x. x.priority) (λ x. x ≡ t) (mid_run_fired run event c avg cap) in
        (λ h. mid_run_sound (to h), λ p. from (mid_run_complete p))
