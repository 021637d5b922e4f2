-- ===== src/Session/Calls.antt =====
-- The tool calls of a session: the loop over the calls of one answer in `execute` of
-- apps/supervisor/src/session.ts. What the handlers of apps/supervisor/src/tools do is an argument;
-- their names are the registry's.
use loopstorm_guard.Common.{
  ℕ, ◌+◌, String, Bool, true, false, not, ◌||◌, Option, none, some, List, [], ◌∷◌, ◌++◌, any, leb,
  str_eq, if◌then◌else◌,
}
use loopstorm_guard.Json.{Json, null, undefined, str, obj, Fields, end, field, get_field, ◌<>◌}
use loopstorm_guard.Session.Sanitize.{stringify, includes, sanitize_tool_result}
use loopstorm_guard.Session.Events.{
  ContentBlock, tool_result, ToolOutcome, answered, failed, SessionParams, Session, max_tool_calls,
  is_exhausted, emit_event, about, rationale_event,
}

abbrev pub tool_registry : List String
tool_registry =
    "read_run_events" ∷ "read_agent_baseline" ∷ "read_policy_pack" ∷ "query_similar_runs"
    ∷ "compute_risk_score" ∷ "analyze_loop_pattern" ∷ "evaluate_recovery_effectiveness"
    ∷ "propose_budget_adjustment" ∷ "flag_for_review" ∷ "escalate_to_human"
    ∷ "record_incident_pattern" ∷ "update_agent_profile" ∷ "record_intervention_outcome" ∷ []

-- The names that every object inherits: they are found, and have no handler.
abbrev pub inherited_names : List String
inherited_names =
    "constructor" ∷ "__defineGetter__" ∷ "__defineSetter__" ∷ "hasOwnProperty" ∷ "__lookupGetter__"
    ∷ "__lookupSetter__" ∷ "isPrototypeOf" ∷ "propertyIsEnumerable" ∷ "toString" ∷ "valueOf"
    ∷ "__proto__" ∷ "toLocaleString" ∷ []

abbrev pub is_registered : String → Bool
is_registered name = any (str_eq name) tool_registry

unfoldable pub error_content : String → String
unfolding stringify
error_content message = stringify (obj (field "error" (str message) end))

abbrev pub sanitized : SessionParams → Json → String
sanitized w result = elim (sanitize_tool_result w.show result) [
  | none ↦ error_content "Cannot read properties of undefined (reading 'length')"
  | some content ↦ content
]

abbrev pub outcome_content : SessionParams → ToolOutcome → String
outcome_content w (answered result) = sanitized w result
outcome_content w (failed message) = error_content message

-- The result of the `n`th call.
unfoldable pub result_content : SessionParams → ℕ → String → Json → String
unfolding error_content sanitize_tool_result
result_content w n name input =
    if is_registered name
    then outcome_content w (w.handle_tool n name input)
    else if any (str_eq name) inherited_names
    then error_content "entry.handler is not a function"
    else error_content ("Unknown tool: " <> name)

abbrev or_null : Json → Json
or_null undefined = null
or_null value = value

-- `input[name] ?? null` as a member of an event.
abbrev copied : String → Json → Fields → Fields
copied name (obj fs) rest = field name (or_null (get_field name fs)) rest
copied name input rest = field name null rest

abbrev pub proposal_event : SessionParams → String → Json → Fields
proposal_event w proposal_type input = about w (
    field "proposal_type" (str proposal_type) (
      copied "target_agent" input (
        copied "rationale" input
          (copied "confidence" input (field "status" (str "pending_approval") end)))))

abbrev pub escalation_event : SessionParams → Json → Fields
escalation_event w input = about w (
    copied "severity" input (
      copied "rationale" input (
        copied "confidence" input (
          copied "recommendation" input
            (copied "timeout_seconds" input (copied "timeout_action" input end))))))

abbrev is_nullish : Json → Bool
is_nullish null = true
is_nullish undefined = true
is_nullish _ = false

abbrev pub is_proposal : String → Bool
is_proposal name = str_eq name "propose_budget_adjustment" || str_eq name "flag_for_review"

-- What follows the event of a tool call: nothing, an event of its own, or a TypeError where a
-- member of the input is read.
pub data Created : Type 0 where
  no_event : Created
  created : (event_type : String) (extra : Fields) → Created
  unreadable : Created

unfoldable pub created_event : SessionParams → String → Json → String → Created
unfolding includes
created_event w name input content =
    if not (is_registered name) || includes "\"error\"" content
    then no_event
    else if not (is_proposal name || str_eq name "escalate_to_human")
    then no_event
    else if is_nullish input
    then unreadable
    else if str_eq name "propose_budget_adjustment"
    then created "supervisor_proposal_created" (proposal_event w "budget_adjustment" input)
    else if str_eq name "flag_for_review"
    then created "supervisor_proposal_created" (proposal_event w "flag_for_review" input)
    else created "supervisor_escalation_created" (escalation_event w input)

-- The session after some tool calls, and their results; `none` is a TypeError.
pub record Called : Type 0 where
  pub session : Session
  pub results : Option (List ContentBlock)

pub record ToolUse : Type 0 where
  pub id : String
  pub name : String
  pub input : Json

abbrev pub counted : Session → Session
counted s = record s { tool_call_count = s.tool_call_count + 1 }

abbrev pub finish_call : SessionParams → Created → String → String → Session → Called
finish_call w no_event id content s = record {
  session = s;
  results = some (tool_result id content ∷ []);
}
finish_call w (created event_type extra) id content s = record {
  session = emit_event w event_type extra s;
  results = some (tool_result id content ∷ []);
}
finish_call w unreadable id content s = record { session = s; results = none }

-- The body of the loop over the tool calls, up to the check of the budget.
unfoldable pub call_tool : SessionParams → ToolUse → Session → Called
call_tool w call s =
    let s1 = counted s in
    let content = result_content w s1.tool_call_count call.name call.input in
    let s2 =
      emit_event w "supervisor_tool_call" (rationale_event w ("Tool call: " <> call.name)) s1 in
    finish_call w (created_event w call.name call.input content) call.id content s2

abbrev pub is_spent : Session → Bool
is_spent s = is_exhausted s || leb max_tool_calls s.tool_call_count

abbrev pub with_results : List ContentBlock → Called → Called
with_results done later = elim later.results [
  | none ↦ record { session = later.session; results = none }
  | some more ↦ record { session = later.session; results = some (done ++ more) }
]

unfoldable pub call_tools : SessionParams → List ToolUse → Session → Called
call_tools w [] s = record { session = s; results = some [] }
call_tools w (call ∷ calls) s =
    let called = call_tool w call s in
    let later = call_tools w calls called.session in
    elim called.results [
      | none ↦ called
      | some done ↦ if is_spent called.session then called else with_results done later
    ]
