-- ===== src/Triggers/Tests.antt =====
-- The evaluators at concrete runs.
use loopstorm_guard.Common.{ℕ, String, Option, none, some, List, [], ◌∷◌, ◌≡◌, ◌↔◌, refl}
use loopstorm_guard.Common.Dict
use loopstorm_guard.Common.Sort.{IsSorted}
use loopstorm_guard.Triggers.{
  TriggerResult, RunSummary, EventSummary, NewEvent, RunningCounters, fire,
  evaluate_post_run_triggers, evaluate_mid_run_triggers,
}
use loopstorm_guard.Triggers.Fired.{Has, DuePostRun, evaluate_post_run_iff}
use loopstorm_guard.Triggers.MidRun.{DueMidRun, evaluate_mid_run_iff}

abbrev spent : RunSummary
spent = record { status = "terminated_budget"; total_cost = 90 }

abbrev denied : List EventSummary
denied = record { event_type = "policy_decision"; decision = some "deny" } ∷ []

abbrev trig : String → ℕ → TriggerResult
trig name priority = record { trigger = name; priority = priority }

post_run_test :
    evaluate_post_run_triggers spent denied (some 100)
    ≡ trig "terminated_budget" 1 ∷ trig "high_cost" 2 ∷ trig "deny_decisions" 3 ∷ []
unfolding evaluate_post_run_triggers fire loopstorm_guard.Common.Sort.sort_by
post_run_test = refl

evaluate_post_run_iff_example :
    Has (evaluate_post_run_triggers spent denied (some 100)) (trig "high_cost" 2)
    ↔ DuePostRun spent denied (some 100) (trig "high_cost" 2)
evaluate_post_run_iff_example = evaluate_post_run_iff spent denied (some 100) (trig "high_cost" 2)

abbrev looped : NewEvent
looped = record { event_type = "policy_decision"; decision = some "deny"; rule_id = some "r1" }

abbrev counters : RunningCounters
counters = record { deny_count = 6; total_decisions = 10; rule_id_counts = ("r1", 3) ∷ [] }

mid_run_test :
    evaluate_mid_run_triggers spent looped counters none (some 1000)
    ≡ trig "deny_spike" 2 ∷ trig "repeated_rule" 3 ∷ []
unfolding evaluate_mid_run_triggers fire Dict.get loopstorm_guard.Common.Sort.sort_by
mid_run_test = refl

evaluate_mid_run_iff_example :
    Has (evaluate_mid_run_triggers spent looped counters none none) (trig "deny_spike" 2)
    ↔ DueMidRun spent looped counters none none (trig "deny_spike" 2)
evaluate_mid_run_iff_example =
    evaluate_mid_run_iff spent looped counters none none (trig "deny_spike" 2)
