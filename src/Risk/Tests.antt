-- ===== src/Risk/Tests.antt =====
-- A run that its budget has ended, with a loop that goes on.
use loopstorm_guard.Common.{ℕ, ◌≡◌, refl, String, none, some, List, [], ◌∷◌}
use loopstorm_guard.Risk.{
  RunInfo, EventInfo, high_deny_rate, budget_near_cap, budget_exceeded, loop_detected,
  loop_unrecovered, rapid_fire, structural_drift, abnormal_token_spike, twice_median, max_delta,
  listed, is_deny_heavy, is_near_cap, is_loop_unrecovered, is_rapid, is_drifting, is_spike,
  compute_risk_score,
}
use loopstorm_guard.Risk.Graded.{IsGraded, compute_risk_score-IsGraded}

abbrev run : RunInfo
run = record { run_id = "r1"; status = "terminated_budget"; total_cost = 90 }

abbrev call : ℕ → String → String → ℕ → EventInfo
call seq event_type shape delta = record {
  seq = seq;
  event_type = event_type;
  decision = some "deny";
  tool = some "search";
  call_seq_fingerprint = some "f";
  inter_call_ms = some 50;
  token_rate_delta = some delta;
  param_shape_hash = some shape;
  hard_cap = some 100;
}

abbrev events : List EventInfo
events =
    call 1 "policy_decision" "a" 1000
    ∷ call 2 "policy_decision" "b" 6000
    ∷ call 3 "loop_detected" "c" 1000
    ∷ call 4 "policy_decision" "d" 1000
    ∷ []

signals_test :
    (compute_risk_score run events none).signals
    ≡ high_deny_rate ∷ budget_near_cap ∷ budget_exceeded ∷ loop_detected ∷ loop_unrecovered
      ∷ rapid_fire ∷ structural_drift ∷ abnormal_token_spike ∷ []
unfolding compute_risk_score listed is_deny_heavy is_near_cap is_loop_unrecovered is_rapid
    is_drifting is_spike twice_median max_delta
signals_test = refl

confidence_test : (compute_risk_score run events none).confidence ≡ 16
unfolding compute_risk_score
confidence_test = refl

compute_risk_score-IsGraded_example : IsGraded run events (compute_risk_score run events none)
compute_risk_score-IsGraded_example = compute_risk_score-IsGraded run events none
