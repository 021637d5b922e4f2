-- ===== src/Risk/Graded.antt =====
-- What the score of a run says about it.
use loopstorm_guard.Common.{
  ℕ, ◌≤◌, ◌<◌, ◌≡◌, inl, inr, refl, Bool, true, false, Option, none, some, List, [], ◌∷◌, arith,
  Bool-cases, filter, any, Any, ltb, str_eq_iff, if◌then◌else◌, leb, min,
}
use loopstorm_guard.Common.Sums.{total}
use loopstorm_guard.Common.Unique.{any_of_Any}
use loopstorm_guard.Risk.{
  RiskSignal, weight, RiskTier, low, medium, high, critical, RiskAssessment, RunInfo, EventInfo,
  BaselineInfo, is_type, is_loop_unrecovered, is_spike, or_zero, max_delta, listed, conditions,
  is_unrecovered, baseline_factor, score_tier, compute_risk_score, listed, baseline_factor,
  conditions,
}

-- The scores of a tier.
pub InTier : ℕ → RiskTier → Type 0
InTier score low = score ≤ 25
InTier score medium = (25 < score) × (score ≤ 50)
InTier score high = (50 < score) × (score ≤ 75)
InTier score critical = 75 < score

pub record IsGraded (run : RunInfo) (events : List EventInfo) (r : RiskAssessment) : Type 0 where
  pub score : r.score ≤ 100
  pub confidence : r.confidence ≤ 100
  pub tier : InTier r.score r.tier
  pub breach : run.status ≡ "terminated_budget" → 30 ≤ r.score
  pub loop : Any (λ e. e.event_type ≡ "loop_detected") events → 20 ≤ r.score
  pub stuck : is_loop_unrecovered events ≡ true → 35 ≤ r.score
  pub spike : Any (λ e. 5000 < or_zero e.token_rate_delta) events → 15 ≤ r.score

score_tier-InTier : (score : ℕ) → InTier score (score_tier score)
unfolding InTier
score_tier-InTier score = elim (Bool-cases (leb score 25)) [
  | inl e ↦ rw (e) (ground arith)
  | inr e ↦ elim (Bool-cases (leb score 50)) [
    | inl e' ↦ rw (e, e') (ground arith, ground arith)
    | inr e' ↦ elim (Bool-cases (leb score 75)) [
      | inl e'' ↦ rw (e, e', e'') (ground arith, ground arith)
      | inr e'' ↦ rw (e, e', e'') (ground arith)
    ]
  ]
]

any-filter :
    {A : Type 0} (p q : A → Bool) (xs : List A) → any p (filter q xs) ≡ true → any q xs ≡ true
any-filter p q [] h = h
any-filter p q (x ∷ xs) h = elim (Bool-cases (q x)) [
  | inl e ↦ rw (e) refl
  | inr e ↦ rw (e) (any-filter p q xs (rw (any, filter, e) at h))
]

max_delta-le : (max : ℕ) (es : List EventInfo) → max ≤ max_delta max es
unfolding max_delta
max_delta-le max [] = omega arith
max_delta-le max (e ∷ es) =
    let next = if ltb max (or_zero e.token_rate_delta) then or_zero e.token_rate_delta else max in
    let step : max ≤ next = ground arith in omega (arith, max_delta-le next es, step)

max_delta-Any :
    (n max : ℕ) (es : List EventInfo)
    → Any (λ e. n < or_zero e.token_rate_delta) es
    → n < max_delta max es
unfolding max_delta
max_delta-Any n max [] h = absurd h
max_delta-Any n max (e ∷ es) (inl h) =
    let next = if ltb max (or_zero e.token_rate_delta) then or_zero e.token_rate_delta else max in
    let step : or_zero e.token_rate_delta ≤ next = ground arith in
    omega (arith, max_delta-le next es, step)
max_delta-Any n max (e ∷ es) (inr h) =
    max_delta-Any n
      (if ltb max (or_zero e.token_rate_delta) then or_zero e.token_rate_delta else max) es h

-- The weight of a signal where its condition holds.
abbrev points : Bool × RiskSignal → ℕ
points (holds, signal) = if holds then weight signal else 0

total-listed : (xs : List (Bool × RiskSignal)) → total weight (listed xs) ≡ total points xs
unfolding listed total
total-listed [] = refl
total-listed ((true, signal) ∷ rest) = omega (arith, total-listed rest)
total-listed ((false, signal) ∷ rest) = omega (arith, total-listed rest)

unrecovered-loop :
    (events : List EventInfo)
    → is_loop_unrecovered events ≡ true
    → any (is_type "loop_detected") events ≡ true
unfolding is_loop_unrecovered
unrecovered-loop events h = any-filter (is_unrecovered events) (is_type "loop_detected") events h

spike-grown :
    (events : List EventInfo)
    → Any (λ e. 5000 < or_zero e.token_rate_delta) events
    → is_spike events ≡ true
unfolding is_spike
spike-grown events grown =
    let most : 5000 < max_delta 0 events = max_delta-Any 5000 0 events grown in ground arith

factor-le : (b : Option BaselineInfo) → baseline_factor b ≤ 10
factor-le none = omega arith
factor-le (some b) = elim (Bool-cases (leb 10 b.run_count)) [
  | inl e ↦ rw (e) (omega arith)
  | inr e ↦ elim (Bool-cases (leb 3 b.run_count)) [
    | inl e' ↦ rw (e, e') (omega arith)
    | inr e' ↦ rw (e, e') (omega arith)
  ]
]

-- The score and the confidence are at most 100 and the tier is the one of the score. A run that
-- its budget has ended scores at least 30, one with a detected loop at least 20, one with a loop
-- that its cooldown has not changed at least 35, and one with a token rate that has grown more
-- than fivefold at least 15.
pub compute_risk_score-IsGraded :
    (run : RunInfo) (events : List EventInfo) (baseline : Option BaselineInfo)
    → IsGraded run events (compute_risk_score run events baseline)
unfolding compute_risk_score total
compute_risk_score-IsGraded run events baseline =
    let sum = total-listed (conditions run events baseline) in
    record {
      score = omega arith;
      confidence = ground (arith, factor-le baseline);
      tier = score_tier-InTier (min (total weight (listed (conditions run events baseline))) 100);
      breach = λ broken.
          let holds = (str_eq_iff run.status "terminated_budget").1 broken in ground (arith, sum);
      loop = λ found.
          let holds = any_of_Any (λ e. e.event_type) "loop_detected" events found in
          ground (arith, sum);
      stuck = λ still. let holds = unrecovered-loop events still in ground (arith, sum);
      spike = λ grown. let holds = spike-grown events grown in ground (arith, sum);
    }
