-- ===== src/Session/Turns.antt =====
-- The turns of a session: `execute` of apps/supervisor/src/session.ts.
use loopstorm_guard.Common.{
  ℕ, zero, suc, ◌+◌, String, Option, none, some, List, [], ◌∷◌, ◌++◌, leb, str_eq, if◌then◌else◌,
}
use loopstorm_guard.Json.{end, ◌<>◌}
use loopstorm_guard.Session.Sanitize.{check_tripwire, build_trigger_message}
use loopstorm_guard.Session.Events.{
  ContentBlock, text, tool_use, tool_result, Message, asked, assistant, user, LlmResponse,
  SessionParams, Session, new_session, max_tool_calls, estimated_cost, is_exhausted, emit_event,
  about, rationale_event,
}
use loopstorm_guard.Session.Calls.{Called, ToolUse, call_tools}

abbrev pub tool_uses : List ContentBlock → List ToolUse
tool_uses [] = []
tool_uses (tool_use id name input ∷ bs) =
    record { id = id; name = name; input = input } ∷ tool_uses bs
tool_uses (text t ∷ bs) = tool_uses bs
tool_uses (tool_result id content ∷ bs) = tool_uses bs

abbrev texts : List ContentBlock → List String
texts [] = []
texts (text t ∷ bs) = t ∷ texts bs
texts (tool_use id name input ∷ bs) = texts bs
texts (tool_result id content ∷ bs) = texts bs

-- `.join("\n")`.
abbrev join_lines : List String → String
join_lines [] = ""
join_lines (t ∷ []) = t
join_lines (t ∷ u ∷ ts) = t <> "\n" <> join_lines (u ∷ ts)

abbrev pub response_text : LlmResponse → String
response_text r = join_lines (texts r.content)

pub data TerminationReason : Type 0 where
  end_turn : TerminationReason
  max_tokens : TerminationReason
  budget_exhausted : TerminationReason
  error : TerminationReason

pub data Turn : Type 0 where
  stop : Session → TerminationReason → Turn
  go : List Message → Session → Turn

abbrev pub used : LlmResponse → Session → Session
used r s = record s {
  total_input_tokens = s.total_input_tokens + r.input_tokens;
  total_output_tokens = s.total_output_tokens + r.output_tokens;
}

abbrev after_calls : List Message → Called → Turn
after_calls messages called = elim called.results [
  | none ↦ stop called.session error
  | some results ↦ go (messages ++ user results ∷ []) called.session
]

-- The rest of a turn when the model has asked for tools.
abbrev pub use_tools : SessionParams → List Message → List ToolUse → Session → Turn
use_tools w messages [] s = stop s end_turn
use_tools w messages (call ∷ calls) s = after_calls messages (call_tools w (call ∷ calls) s)

-- The rest of a turn after the answer of the model.
unfoldable pub respond : SessionParams → List Message → LlmResponse → Session → Turn
respond w messages r s =
    if check_tripwire (response_text r) w.internal_key
    then stop s error
    else if str_eq r.stop_reason "end_turn"
    then stop s end_turn
    else if str_eq r.stop_reason "max_tokens"
    then stop s max_tokens
    else use_tools w (messages ++ assistant r.content ∷ []) (tool_uses r.content) s

-- One pass of the loop, its condition first.
unfoldable pub take_turn : SessionParams → List Message → Session → Turn
take_turn w messages s =
    if leb max_tool_calls s.tool_call_count
    then stop s end_turn
    else if is_exhausted s
    then stop
        (emit_event w "supervisor_tool_call"
          (rationale_event w "Session terminated: budget exhausted") s)
        budget_exhausted
    else elim (w.chat messages) [ none ↦ stop s error | some r ↦ respond w messages r (used r s) ]

-- The loop, on fuel: `none` means that it has run out.
unfoldable pub take_turns :
    SessionParams → ℕ → List Message → Session → Option (Session × TerminationReason)
take_turns w zero messages s = none
take_turns w (suc n) messages s = elim (take_turn w messages s) [
  | stop s' reason ↦ some (s', reason)
  | go messages' s' ↦ take_turns w n messages' s'
]

pub record SessionResult : Type 0 where
  pub session : Session
  pub estimated_cost : ℕ
  pub termination_reason : TerminationReason

-- The check after the loop.
abbrev pub final_reason : Session → TerminationReason → TerminationReason
final_reason s end_turn =
    if leb max_tool_calls s.tool_call_count then budget_exhausted else end_turn
final_reason s reason = reason

abbrev pub result_of : Session × TerminationReason → SessionResult
result_of (s, reason) = record {
  session = s;
  estimated_cost = estimated_cost s;
  termination_reason = final_reason s reason;
}

abbrev pub started_session : SessionParams → Session
started_session w = emit_event w "supervisor_run_started" (about w end) new_session

unfoldable pub execute : SessionParams → Option SessionResult
execute w =
    elim (take_turns w 101 (asked (build_trigger_message w.trigger w.trigger_run_id) ∷ [])
      (started_session w)) [ none ↦ none | some ended ↦ some (result_of ended) ]
