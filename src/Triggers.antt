-- ===== src/Triggers.antt =====
-- packages/backend/src/lib/triggers.ts: which supervisor triggers fire. Costs are whole numbers of
-- one unit, such as the micro-dollar, and an average deny rate is a fraction `num / den`, so the
-- comparisons of the source are made by cross-multiplication.
pub mod Fired
pub mod MidRun
mod Tests
use loopstorm_guard.Common.{
  ℕ, ◌*◌, ◌≤◌, String, Bool, true, false, ◌&&◌, not, Option, none, some, List, [], ◌∷◌, ◌++◌, ltb,
  leb, ◌==◌, if◌then◌else◌, any, str_eq, opt_str_eq,
}
use loopstorm_guard.Common.Sort.{sort_by}
use loopstorm_guard.Common.Dict
use text.Mathlib.Text.{starts_with}

pub record TriggerResult : Type 0 where
  pub trigger : String
  pub priority : ℕ

pub record RunningCounters : Type 0 where
  pub deny_count : ℕ
  pub total_decisions : ℕ
  pub rule_id_counts : List (String × ℕ)

pub record RunSummary : Type 0 where
  pub status : String
  pub total_cost : ℕ

pub record EventSummary : Type 0 where
  pub event_type : String
  pub decision : Option String

pub record NewEvent : Type 0 where
  pub event_type : String
  pub decision : Option String
  pub rule_id : Option String

pub record Rate : Type 0 where
  pub num : ℕ
  pub den : ℕ

abbrev pub builtin_prefix : String
builtin_prefix = "__builtin_"

abbrev pub deny_spike_multiplier : ℕ
deny_spike_multiplier = 3

abbrev pub deny_spike_min_count : ℕ
deny_spike_min_count = 5

abbrev pub repeated_rule_threshold : ℕ
repeated_rule_threshold = 3

-- `fired.push(…)` under a condition.
unfoldable pub fire : Bool → String → ℕ → List TriggerResult
fire true trigger priority = record { trigger = trigger; priority = priority } ∷ []
fire false trigger priority = []

-- `cost > fraction * cap` for the fraction `tenths / 10`, false without a cap.
abbrev pub is_over : ℕ → ℕ → Option ℕ → Bool
is_over tenths cost none = false
is_over tenths cost (some cap) = ltb (tenths * cap) (10 * cost)

pub has_deny : List EventSummary → Bool
has_deny = any (λ e. opt_str_eq e.decision (some "deny"))

pub sort_by_priority : List TriggerResult → List TriggerResult
sort_by_priority = sort_by (λ t. t.priority)

-- The array `fired` before it is sorted.
pub post_run_fired : RunSummary → List EventSummary → Option ℕ → List TriggerResult
unfolding has_deny
post_run_fired run events budget_hard_cap =
    fire (str_eq run.status "terminated_budget") "terminated_budget" 1
    ++ (fire (str_eq run.status "terminated_loop") "terminated_loop" 1
        ++ (fire (is_over 8 run.total_cost budget_hard_cap) "high_cost" 2
            ++ (fire (str_eq run.status "abandoned") "abandoned" 3
                ++ fire (has_deny events) "deny_decisions" 3)))

unfoldable pub evaluate_post_run_triggers :
    RunSummary → List EventSummary → Option ℕ → List TriggerResult
unfolding post_run_fired sort_by_priority
evaluate_post_run_triggers run events budget_hard_cap =
    sort_by_priority (post_run_fired run events budget_hard_cap)

-- `denyRate > threshold`, where the rate is 0 without decisions.
pub rate_above : ℕ → ℕ → Option Rate → Bool
rate_above deny total none = if total == 0 then false else ltb total (2 * deny)
rate_above deny total (some avg) =
    if total == 0 then false else ltb (deny_spike_multiplier * avg.num * total) (deny * avg.den)

pub is_deny_spike : RunningCounters → Option Rate → Bool
unfolding rate_above
is_deny_spike counters baseline =
    leb deny_spike_min_count counters.deny_count
    && rate_above counters.deny_count counters.total_decisions baseline

abbrev count_or_zero : Option ℕ → ℕ
count_or_zero none = 0
count_or_zero (some n) = n

pub is_repeated_rule : Option String → List (String × ℕ) → Bool
is_repeated_rule none counts = false
is_repeated_rule (some rule) counts =
    not (starts_with rule builtin_prefix)
    && leb repeated_rule_threshold (count_or_zero (Dict.get rule counts))

pub mid_run_fired :
    RunSummary → NewEvent → RunningCounters → Option Rate → Option ℕ → List TriggerResult
unfolding is_deny_spike is_repeated_rule
mid_run_fired run new_event counters baseline budget_hard_cap =
    fire (is_over 7 run.total_cost budget_hard_cap) "budget_warning" 2
    ++ (fire (str_eq new_event.event_type "loop_detected") "loop_detected" 2
        ++ (fire (is_deny_spike counters baseline) "deny_spike" 2
            ++ fire (is_repeated_rule new_event.rule_id counters.rule_id_counts) "repeated_rule" 3))

pub evaluate_mid_run_triggers :
    RunSummary → NewEvent → RunningCounters → Option Rate → Option ℕ → List TriggerResult
unfolding mid_run_fired sort_by_priority
evaluate_mid_run_triggers run new_event counters baseline budget_hard_cap =
    sort_by_priority (mid_run_fired run new_event counters baseline budget_hard_cap)
