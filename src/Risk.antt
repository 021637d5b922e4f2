-- ===== src/Risk.antt =====
-- `computeRiskScore` of apps/supervisor/src/lib/risk-score.ts without the texts of the evidence and
-- of the narrative. Costs are whole numbers of one unit, the change of the token rate is counted in
-- thousandths, zero for a fall, and a deny rate is a fraction.
mod Graded
mod Tests
use loopstorm_guard.Common.{
  ℕ, ◌+◌, ◌*◌, ◌/◌, ◌%◌, min, String, Bool, true, false, ◌&&◌, ◌||◌, Option, none, some, List, [],
  ◌∷◌, ◌++◌, length, filter, any, head?, get_last?, drop, ltb, leb, ◌==◌, str_eq, opt_str_eq,
  if◌then◌else◌, is_some, ◌-◌,
}
use loopstorm_guard.Common.Sort.{sort_by}
use loopstorm_guard.Common.Sums.{total}

pub data RiskSignal : Type 0 where
  high_deny_rate : RiskSignal
  budget_near_cap : RiskSignal
  budget_exceeded : RiskSignal
  loop_detected : RiskSignal
  loop_unrecovered : RiskSignal
  rapid_fire : RiskSignal
  structural_drift : RiskSignal
  abnormal_token_spike : RiskSignal

abbrev pub weight : RiskSignal → ℕ
weight high_deny_rate = 25
weight budget_near_cap = 20
weight budget_exceeded = 30
weight loop_detected = 20
weight loop_unrecovered = 15
weight rapid_fire = 10
weight structural_drift = 10
weight abnormal_token_spike = 15

pub data RiskTier : Type 0 where
  low : RiskTier
  medium : RiskTier
  high : RiskTier
  critical : RiskTier

pub record RiskAssessment : Type 0 where
  pub run_id : String
  pub score : ℕ
  pub tier : RiskTier
  pub signals : List RiskSignal
  pub confidence : ℕ

pub record RunInfo : Type 0 where
  pub run_id : String
  pub status : String
  pub total_cost : ℕ

-- `hard_cap` is `budget.cost_usd.hard`.
pub record EventInfo : Type 0 where
  pub seq : ℕ
  pub event_type : String
  pub decision : Option String
  pub tool : Option String
  pub call_seq_fingerprint : Option String
  pub inter_call_ms : Option ℕ
  pub token_rate_delta : Option ℕ
  pub param_shape_hash : Option String
  pub hard_cap : Option ℕ

-- The average deny rate is `denied` of `decided`, and zero without decisions.
pub record BaselineInfo : Type 0 where
  pub run_count : ℕ
  pub denied : ℕ
  pub decided : ℕ

abbrev is_deny : EventInfo → Bool
is_deny e = opt_str_eq e.decision (some "deny")

abbrev pub is_type : String → EventInfo → Bool
is_type event_type e = str_eq e.event_type event_type

-- More than the threshold: 0.3, or with a baseline twice its rate and 0.1.
abbrev is_high_rate : ℕ → ℕ → Option BaselineInfo → Bool
is_high_rate denies decisions none = ltb (3 * decisions) (10 * denies)
is_high_rate denies decisions (some b) =
    if leb 3 b.run_count
    then ltb decisions (10 * denies)
      && (b.decided == 0 || ltb (2 * b.denied * decisions) (denies * b.decided))
    else ltb (3 * decisions) (10 * denies)

-- S1.
unfoldable pub is_deny_heavy : List EventInfo → Option BaselineInfo → Bool
is_deny_heavy events baseline =
    let denies = length (filter is_deny events) in
    let decisions = length (filter (is_type "policy_decision") events) in
    ltb 0 decisions && (is_high_rate denies decisions baseline && leb 3 denies)

abbrev extract_budget_hard_cap : List EventInfo → Option ℕ
extract_budget_hard_cap [] = none
extract_budget_hard_cap (e ∷ es) = elim (extract_budget_hard_cap es) [
  | some cap ↦ some cap
  | none ↦ e.hard_cap
]

-- S2.
unfoldable pub is_near_cap : RunInfo → List EventInfo → Bool
is_near_cap run events = elim (extract_budget_hard_cap events) [
  | none ↦ false
  | some cap ↦ ltb (8 * cap) (10 * run.total_cost)
]

abbrev fingerprint_of : Option EventInfo → Option String
fingerprint_of none = none
fingerprint_of (some e) = e.call_seq_fingerprint

-- Whether the calls before and after a loop have one fingerprint.
abbrev is_same : Option String → Option String → Bool
is_same (some a) (some b) = str_eq a b
is_same (some a) none = false
is_same none b = false

abbrev is_unrecovered : List EventInfo → EventInfo → Bool
is_unrecovered events loop =
    let after = filter (λ e. ltb loop.seq e.seq && is_type "policy_decision" e) events in
    let before = filter (λ e. ltb e.seq loop.seq && is_some e.call_seq_fingerprint) events in
    is_same (fingerprint_of (get_last? before)) (fingerprint_of (head? after))

-- S5.
unfoldable pub is_loop_unrecovered : List EventInfo → Bool
is_loop_unrecovered events = any (is_unrecovered events) (filter (is_type "loop_detected") events)

abbrev inter_call_values : List EventInfo → List ℕ
inter_call_values [] = []
inter_call_values (e ∷ es) = elim e.inter_call_ms [
  | none ↦ inter_call_values es
  | some ms ↦ if ltb 0 ms then ms ∷ inter_call_values es else inter_call_values es
]

abbrev pub or_zero : Option ℕ → ℕ
or_zero none = 0
or_zero (some n) = n

-- Twice the median.
unfoldable pub twice_median : List ℕ → ℕ
unfolding sort_by
twice_median values =
    let sorted = sort_by (λ n. n) values in
    let mid = length sorted / 2 in
    if length sorted % 2 == 0
    then or_zero (head? (drop (mid - 1) sorted)) + or_zero (head? (drop mid sorted))
    else 2 * or_zero (head? (drop mid sorted))

-- S6.
unfoldable pub is_rapid : List EventInfo → Bool
is_rapid events =
    let values = inter_call_values events in leb 3 (length values) && ltb (twice_median values) 200

-- A member that is there and not empty.
abbrev is_truthy : Option String → Bool
is_truthy none = false
is_truthy (some s) = if str_eq s "" then false else true

abbrev has_shape : EventInfo → Bool
has_shape e = is_truthy e.tool && is_truthy e.param_shape_hash

abbrev pub uses_of : Option String → List EventInfo → List EventInfo
uses_of tool events = filter (λ e. has_shape e && opt_str_eq e.tool tool) events

-- The distinct shapes.
abbrev pub shapes_of : List EventInfo → List (Option String)
shapes_of [] = []
shapes_of (e ∷ es) =
    let shapes = shapes_of es in
    if any (opt_str_eq e.param_shape_hash) shapes then shapes else e.param_shape_hash ∷ shapes

abbrev pub is_drifting_tool : List EventInfo → EventInfo → Bool
is_drifting_tool events e =
    let uses = uses_of e.tool events in leb 3 (length uses) && ltb 3 (length (shapes_of uses))

-- S7: some tool has been used three times with more than three shapes.
unfoldable pub is_drifting : List EventInfo → Bool
is_drifting events = any (is_drifting_tool events) (filter has_shape events)

unfoldable pub max_delta : ℕ → List EventInfo → ℕ
max_delta max [] = max
max_delta max (e ∷ es) =
    max_delta (if ltb max (or_zero e.token_rate_delta) then or_zero e.token_rate_delta else max) es

-- S8.
unfoldable pub is_spike : List EventInfo → Bool
unfolding max_delta
is_spike events = ltb 5000 (max_delta 0 events)

-- The signals whose conditions hold.
unfoldable pub listed : List (Bool × RiskSignal) → List RiskSignal
listed [] = []
listed ((holds, signal) ∷ rest) =
    let signals = listed rest in if holds then signal ∷ signals else signals

abbrev pub conditions : RunInfo → List EventInfo → Option BaselineInfo → List (Bool × RiskSignal)
conditions run events baseline =
    (is_deny_heavy events baseline, high_deny_rate)
    ∷ (is_near_cap run events, budget_near_cap)
    ∷ (str_eq run.status "terminated_budget", budget_exceeded)
    ∷ (any (is_type "loop_detected") events, loop_detected)
    ∷ (is_loop_unrecovered events, loop_unrecovered)
    ∷ (is_rapid events, rapid_fire)
    ∷ (is_drifting events, structural_drift)
    ∷ (is_spike events, abnormal_token_spike)
    ∷ []

abbrev pub score_tier : ℕ → RiskTier
score_tier score =
    if leb score 25
    then low
    else if leb score 50
    then medium
    else if leb score 75
    then high
    else critical

-- In tenths.
abbrev baseline_factor : Option BaselineInfo → ℕ
baseline_factor none = 4
baseline_factor (some b) = if leb 10 b.run_count then 10 else if leb 3 b.run_count then 7 else 4

-- The confidence in hundredths, which the code's rounding does not change.
unfoldable pub compute_risk_score : RunInfo → List EventInfo → Option BaselineInfo → RiskAssessment
compute_risk_score run events baseline =
    let signals = listed (conditions run events baseline) in
    let score = min (total weight signals) 100 in
    record {
      run_id = run.run_id;
      score = score;
      tier = score_tier score;
      signals = signals;
      confidence = min 10 (length events) * baseline_factor baseline;
    }
