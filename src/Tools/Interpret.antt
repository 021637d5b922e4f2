-- ===== src/Tools/Interpret.antt =====
-- apps/supervisor/src/tools/interpretation.ts: the risk score of a run from what the backend
-- returns. How the text of a number is read, in the units of the score, is an argument.
use loopstorm_guard.Common.{
  ℕ, ◌+◌, String, Bool, false, not, Option, none, some, List, [], ◌∷◌, map, filter, head?,
  get_last?, str_eq, if◌then◌else◌,
}
use loopstorm_guard.Json.{get_field, Json, number, obj}
use loopstorm_guard.Ingest.Store.{EventRow}
use loopstorm_guard.Risk.{RunInfo, EventInfo, BaselineInfo, RiskAssessment, compute_risk_score}
use loopstorm_guard.Tools.Baseline.{AgentBaseline, Aggregates}
use loopstorm_guard.Tools.Reads.{text_column}

pub record Units : Type 0 where
  pub to_ms : String → ℕ
  pub to_thousandths : String → ℕ
  pub to_cost : String → ℕ

abbrev read_number : (String → ℕ) → Json → Option ℕ
read_number read (number n) = some (read n)
read_number read value = none

abbrev inner : String → Json → Json
inner name (obj fs) = get_field name fs
inner name value = value

-- `eventInfos`.
abbrev pub event_info : Units → EventRow → EventInfo
unfolding text_column
event_info u e = record {
  seq = e.event.seq;
  event_type = e.event.event_type;
  decision = e.event.decision;
  tool = text_column "tool" e;
  call_seq_fingerprint = text_column "call_seq_fingerprint" e;
  inter_call_ms = read_number u.to_ms (get_field "inter_call_ms" e.event.other);
  token_rate_delta = read_number u.to_thousandths (get_field "token_rate_delta" e.event.other);
  param_shape_hash = text_column "param_shape_hash" e;
  hard_cap =
      read_number u.to_cost (inner "hard" (inner "cost_usd" (get_field "budget" e.event.other)));
}

abbrev is_run_ended : EventRow → Bool
is_run_ended e = str_eq e.event.event_type "run_ended"

abbrev ended_last : Option EventRow → Bool
ended_last none = false
ended_last (some e) = is_run_ended e

abbrev run_status_of : Option EventRow → Option String
run_status_of none = none
run_status_of (some e) = e.event.run_status

abbrev is_ended : Option String → Bool → Bool
is_ended none last = last
is_ended (some s) last = not (str_eq s "")

abbrev pub has_ended : List EventRow → Bool
has_ended events =
    is_ended (run_status_of (head? (filter is_run_ended events))) (ended_last (get_last? events))

-- `??` binds closer than `? :`, so that the status is one of two words.
abbrev pub status_of : List EventRow → String
status_of events = if has_ended events then "completed" else "running"

abbrev cost_of : Option ℕ → ℕ
cost_of none = 0
cost_of (some n) = n

unfoldable pub total_cost_of : List EventRow → ℕ
total_cost_of [] = 0
total_cost_of (e ∷ es) = cost_of e.event.estimated_cost + total_cost_of es

abbrev baseline_info_of : ℕ → Option Aggregates → Option BaselineInfo
baseline_info_of run_count none = none
baseline_info_of run_count (some a) =
    some (record { run_count = run_count; denied = a.denied; decided = a.decided })

abbrev baseline_info : Option AgentBaseline → Option BaselineInfo
baseline_info none = none
baseline_info (some b) = baseline_info_of b.run_count b.aggregates

abbrev agent_name_of : Option EventRow → Option String
agent_name_of none = none
agent_name_of (some e) = e.event.agent_name

-- The answer for an agent; an empty name is not asked for, and a failed request counts as none.
abbrev ask_baseline : (String → Option AgentBaseline) → Option String → Option AgentBaseline
ask_baseline ask none = none
ask_baseline ask (some name) = if str_eq name "" then none else ask name

abbrev pub baseline_of_agent : (String → Option AgentBaseline) → List EventRow → Option BaselineInfo
baseline_of_agent ask events = baseline_info (ask_baseline ask (agent_name_of (head? events)))

abbrev pub run_of : String → List EventRow → RunInfo
run_of run_id events = record {
  run_id = run_id;
  status = status_of events;
  total_cost = total_cost_of events;
}

-- `computeRiskScoreTool`; `events` is the page that `getRunEvents` returns for the limit 1000.
unfoldable pub compute_risk_score_tool :
    Units → (String → Option AgentBaseline) → String → List EventRow → RiskAssessment
compute_risk_score_tool u ask run_id events =
    compute_risk_score (run_of run_id events) (map (event_info u) events)
      (baseline_of_agent ask events)
