-- ===== src/Spans.antt =====
-- apps/otel-exporter/src/span-status.ts: the status of an event's span.
mod Errors
mod Tests
use loopstorm_guard.Common.{String, Option, none, some, if◌then◌else◌, str_eq, opt_str_eq}

pub data SpanStatusCode : Type 0 where
  unset : SpanStatusCode
  success : SpanStatusCode
  error : SpanStatusCode

pub record SpanStatusResult : Type 0 where
  pub code : SpanStatusCode
  pub message : Option String

abbrev pub plain : SpanStatusCode → SpanStatusResult
plain code = record { code = code; message = none }

-- `reason ?? ""`.
abbrev pub failed : Option String → SpanStatusResult
failed none = record { code = error; message = some "" }
failed (some reason) = record { code = error; message = some reason }

-- `decisionToSpanStatus`; the branches with one result stand together at the end.
unfoldable pub decision_to_span_status : String → Option String → SpanStatusResult
decision_to_span_status decision reason =
    if str_eq decision "allow"
    then plain success
    else if str_eq decision "deny"
    then failed reason
    else if str_eq decision "cooldown"
    then plain success
    else if str_eq decision "kill"
    then failed reason
    else plain unset

-- `eventTypeToSpanStatus`.
unfoldable pub event_type_to_span_status : String → Option String → SpanStatusResult
event_type_to_span_status event_type run_status =
    if str_eq event_type "run_ended"
    then if opt_str_eq run_status (some "completed") then plain success else plain error
    else if str_eq event_type "budget_exceeded"
    then plain error
    else if str_eq event_type "supervisor_tool_call"
    then plain success
    else if str_eq event_type "supervisor_proposal_created"
    then plain success
    else if str_eq event_type "supervisor_escalation_created"
    then plain success
    else plain unset

-- `spanStatusForEvent`.
unfoldable pub span_status_for_event :
    String → Option String → Option String → Option String → SpanStatusResult
unfolding decision_to_span_status event_type_to_span_status
span_status_for_event event_type none reason run_status =
    event_type_to_span_status event_type run_status
span_status_for_event event_type (some decision) reason run_status =
    if str_eq event_type "policy_decision"
    then decision_to_span_status decision reason
    else event_type_to_span_status event_type run_status
