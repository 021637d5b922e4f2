-- ===== src/Tools/Tests.antt =====
-- The supervisor's tools at concrete inputs.
use loopstorm_guard.Common.{
  ℕ, ◌≡◌, inl, refl, String, true, false, none, some, List, [], ◌∷◌, arith, Any, ◌+◌,
}
use loopstorm_guard.Common.Dict
use loopstorm_guard.Json.{Json, str, Fields, end, field}
use loopstorm_guard.Policies.Content.{Number}
use loopstorm_guard.Ingest.Store.{EventRow, Db}
use loopstorm_guard.Risk.{budget_exceeded}
use loopstorm_guard.Session.Sanitize.{text_length}
use loopstorm_guard.Session.Events.{SessionParams, Emitted, Event, payload}
use loopstorm_guard.Session.Calls.{escalation_event}
use loopstorm_guard.Tools.Schema.{Formats, fits, check_member, parse_members}
use loopstorm_guard.Tools.Emit.{receive_event, request_body, EmitAnswer, bad_request, stored}
use loopstorm_guard.Tools.Refused.{created_event-refused}
use loopstorm_guard.Tools.Baseline.{
  Sql, BaselineRequest, answered, AgentBaseline, compute_baseline, cache_key, get_cached_baseline,
  set_cached_baseline, get_agent_baseline, CacheStep, looked_up, stored, cache_after,
}
use loopstorm_guard.Tools.Fresh.{IsFresh, answer-IsFresh}
use loopstorm_guard.Tools.Interpret.{Units, compute_risk_score_tool}
use loopstorm_guard.Tools.Breach.{compute_risk_score_tool-no_breach}
use loopstorm_guard.Tools.Analysis.{
  TracedEvent, analyze_loop_pattern, effective, evaluate_recovery_effectiveness,
}

abbrev formats : Formats
formats = record {
  is_uuid = λ s. true;
  is_datetime = λ s. true;
  is_integer = λ s. true;
  value_of = λ s. 1;
}

abbrev digest : String
digest = "0123456789abcdef0123456789abcdef0123456789abcdef0123456789abcdef"

abbrev params : SessionParams
params = record {
  supervisor_run_id = "sup_1";
  supervisor_run_uuid = "u1";
  trigger = "deny_decisions";
  trigger_run_id = "r1";
  internal_key = none;
  chat = λ messages. none;
  handle_tool = λ n name input. loopstorm_guard.Session.Events.failed "none";
  confirms_event = λ seq. true;
  clock = λ seq. "now";
  sha256 = λ s. digest;
  show = λ n. "1";
}

abbrev emitted : Fields → Emitted
emitted extra = record {
  event = record { event_type = "e"; seq = 1; ts = "now"; extra = extra };
  hash = digest;
  hash_prev = none;
}

abbrev empty_db : Db
empty_db = record { runs = []; events = [] }

abbrev answer_to : Fields → EmitAnswer
answer_to extra =
    (receive_event formats ("supervisor" ∷ []) "t1" (request_body params (emitted extra))
      empty_db).1

-- An event without a null is stored.
stored_test : answer_to (field "trigger" (str "t") end) ≡ stored
unfolding receive_event parse_members check_member fits payload text_length
stored_test = refl

abbrev input : Fields
input = field "severity" (str "high") (field "rationale" (str "denied") end)

created_event-refused_example :
    receive_event formats
      ("supervisor" ∷ [])
      "t1"
      (request_body params (emitted (escalation_event params (loopstorm_guard.Json.obj input))))
      empty_db
    ≡ (empty_db, bad_request)
created_event-refused_example =
    created_event-refused formats ("supervisor" ∷ []) "t1" empty_db params
      (emitted (escalation_event params (loopstorm_guard.Json.obj input))) "flag_for_review" input
      (inl (refl, refl))

abbrev zero_number : Number
zero_number = record { negative = false; numerator = 0; denominator = 1 }

abbrev sql : Sql
sql = record { avg = λ xs. zero_number; percentile_cont = λ n xs. zero_number; show = λ n. "30" }

abbrev ask_at : ℕ → BaselineRequest
ask_at now = record {
  scopes = "supervisor" ∷ [];
  tenant_id = "t1";
  agent_name = "a";
  lookback_days = 30;
  started_at = now;
  stored_at = now + 10;
  runs = [];
  events = [];
}

abbrev no_runs : AgentBaseline
no_runs = record { run_count = 0; aggregates = none }

-- The second request starts before the first one has stored its result.
abbrev overlapping : List CacheStep
overlapping = stored (ask_at 0) ∷ looked_up (ask_at 1) ∷ looked_up (ask_at 0) ∷ []

-- A third request is answered from the cache.
cached_test :
    (get_agent_baseline sql (ask_at 300_000) (cache_after sql overlapping)).1 ≡ answered no_runs
unfolding get_agent_baseline cache_after get_cached_baseline set_cached_baseline compute_baseline
    Dict.get Dict.set
cached_test = refl

answer-IsFresh_example :
    Any
      (λ c. (c.tenant_id ≡ "t1") × IsFresh sql (cache_key sql (ask_at 300_000)) 300_000 no_runs c)
      (ask_at 300_000 ∷ ask_at 0 ∷ [])
answer-IsFresh_example =
    answer-IsFresh sql overlapping (ask_at 300_000) no_runs (omega arith)
      ((refl, (refl, tt)), ((refl, (refl, tt)), tt)) cached_test

abbrev ended : EventRow
ended = record {
  run_id = "r1";
  tenant_id = "t1";
  event = record {
    event_type = "run_ended";
    run_id = "r1";
    seq = 1;
    ts = "now";
    hash = "h";
    hash_prev = none;
    agent_name = none;
    agent_role = none;
    environment = none;
    policy_pack_id = none;
    decision = none;
    run_status = some "budget_exceeded";
    input_tokens = none;
    output_tokens = none;
    estimated_cost = none;
    other = end;
  };
  raw_line = "";
}

abbrev units : Units
units = record { to_ms = λ s. 0; to_thousandths = λ s. 0; to_cost = λ s. 0 }

compute_risk_score_tool-no_breach_example :
    ¬ Any
      (λ s. s ≡ budget_exceeded)
      (compute_risk_score_tool units (λ name. none) "r1" (ended ∷ [])).signals
compute_risk_score_tool-no_breach_example =
    compute_risk_score_tool-no_breach units (λ name. none) "r1" (ended ∷ [])

abbrev traced : ℕ → String → String → String → TracedEvent
traced seq event_type tool fingerprint = record {
  seq = seq;
  event_type = event_type;
  tool = some tool;
  call_seq_fingerprint = some fingerprint;
}

abbrev trace : List TracedEvent
trace =
    traced 1 "policy_decision" "search" "f"
    ∷ traced 2 "loop_detected" "search" "f"
    ∷ traced 3 "policy_decision" "search" "g"
    ∷ []

pattern_test :
    analyze_loop_pattern trace
    ≡ record { loop_seq = 2; repeated_tools = some "search" ∷ []; recovered = true } ∷ []
unfolding analyze_loop_pattern
pattern_test = refl

verdict_test : (evaluate_recovery_effectiveness (λ xs. "") trace 2).verdict ≡ effective
unfolding evaluate_recovery_effectiveness
verdict_test = refl
