-- ===== src/Tools/Breach.antt =====
-- The risk score that the supervisor sees does not know of breached budgets.
use loopstorm_guard.Common.{
  map, arith, ◌≡◌, inl, inr, refl, String, Bool, true, false, Option, List, [], ◌∷◌, Any, str_eq,
  if_either,
}
use loopstorm_guard.Ingest.Store.{EventRow}
use loopstorm_guard.Risk.{
  RiskSignal, budget_exceeded, listed, conditions, compute_risk_score, RunInfo, EventInfo,
  BaselineInfo,
}
use loopstorm_guard.Tools.Baseline.{AgentBaseline}
use loopstorm_guard.Tools.Interpret.{
  Units, has_ended, run_of, baseline_of_agent, event_info, compute_risk_score_tool,
}

-- A signal that is listed stands in the list with a condition that holds.
listed-Any :
    (s : RiskSignal) (xs : List (Bool × RiskSignal))
    → Any (λ x. x ≡ s) (listed xs)
    → Any (λ p. (p.0 ≡ true) × (p.1 ≡ s)) xs
unfolding listed
listed-Any s [] h = absurd h
listed-Any s ((true, x) ∷ xs) (inl e) = inl (refl, e)
listed-Any s ((true, x) ∷ xs) (inr h) = inr (listed-Any s xs h)
listed-Any s ((false, x) ∷ xs) h = inr (listed-Any s xs h)

no_breach :
    (run : RunInfo) (events : List EventInfo) (baseline : Option BaselineInfo)
    → str_eq run.status "terminated_budget" ≡ false
    → ¬ Any (λ s. s ≡ budget_exceeded) (listed (conditions run events baseline))
no_breach run events baseline status h =
    ground (arith, listed-Any budget_exceeded (conditions run events baseline) h)

-- Whatever a run has done, and also when its budget has ended it, the risk score that the tool
-- computes for it does not list `budget_exceeded`.
pub compute_risk_score_tool-no_breach :
    (u : Units) (ask : String → Option AgentBaseline) (run_id : String) (events : List EventRow)
    → ¬ Any (λ s. s ≡ budget_exceeded) (compute_risk_score_tool u ask run_id events).signals
unfolding compute_risk_score_tool compute_risk_score
compute_risk_score_tool-no_breach u ask run_id events h =
    let status =
      if_either (λ s. str_eq s "terminated_budget" ≡ false) (has_ended events) "completed" "running"
        refl refl in
    no_breach (run_of run_id events) (map (event_info u) events) (baseline_of_agent ask events)
      status h
