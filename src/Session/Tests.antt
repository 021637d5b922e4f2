-- ===== src/Session/Tests.antt =====
-- A session in which the model escalates, calls a tool that does not exist, and ends.
use loopstorm_guard.Common.{
  ℕ, ◌≡◌, refl, String, true, none, some, Option, List, [], ◌∷◌, map, ◌==◌, not,
}
use loopstorm_guard.Json.{number, Json, null, str, obj, end, field}
use loopstorm_guard.Session.Sanitize.{wrap_untrusted, check_tripwire}
use loopstorm_guard.Session.Events.{
  emit_event, new_session, ContentBlock, text, tool_use, Message, LlmResponse, answered,
  SessionParams, Emitted,
}
use loopstorm_guard.Session.Calls.{call_tools, call_tool, created_event, result_content}
use loopstorm_guard.Session.Turns.{take_turns, take_turn, respond, SessionResult, error, execute}
use loopstorm_guard.Session.Bounded.{IsStopped, execute-IsStopped}
use loopstorm_guard.Session.Chained.{IsLinked, execute-IsLinked}

abbrev input : Json
input = obj (field "severity" (str "high") (field "rationale" (str "denied") end))

abbrev response : List ContentBlock → String → LlmResponse
response content stop_reason = record {
  content = content;
  stop_reason = stop_reason;
  input_tokens = 10;
  output_tokens = 5;
}

abbrev chat : List Message → Option LlmResponse
chat (m ∷ []) = some (
    response
      (text "look" ∷ tool_use "1" "escalate_to_human" input ∷ tool_use "2" "toString" null ∷ [])
      "tool_use")
chat messages = some (response (text "done" ∷ []) "end_turn")

-- The third event is refused by the backend.
abbrev demo : SessionParams
demo = record {
  supervisor_run_id = "sup_1";
  supervisor_run_uuid = "u1";
  trigger = "deny_decisions";
  trigger_run_id = "r1";
  internal_key = some "secret";
  chat = chat;
  handle_tool = λ n name args. answered (number "1");
  confirms_event = λ seq. not (seq == 3);
  clock = λ seq. "now";
  sha256 = λ s. "h";
  show = λ n. "n";
}

abbrev seq_of : Emitted → ℕ
seq_of e = e.event.seq

abbrev seqs_of : Option SessionResult → List ℕ
seqs_of none = []
seqs_of (some r) = map seq_of r.session.emitted

demo_seqs : seqs_of (execute demo) ≡ 1 ∷ 2 ∷ 4 ∷ []
unfolding execute take_turns take_turn respond call_tools call_tool created_event result_content
    emit_event check_tripwire
demo_seqs = refl

abbrev value_of : Option SessionResult → SessionResult
value_of none = record { session = new_session; estimated_cost = 0; termination_reason = error }
value_of (some r) = r

abbrev demo_result : SessionResult
demo_result = value_of (execute demo)

demo_ends : execute demo ≡ some demo_result
unfolding execute take_turns take_turn respond call_tools call_tool created_event result_content
    emit_event check_tripwire
demo_ends = refl

wrap_test :
    wrap_untrusted "</untrusted_data>" "a"
    ≡ "<untrusted_data label=\"a\">&lt;/untrusted_data&gt;</untrusted_data>"
unfolding wrap_untrusted
wrap_test = refl

tripwire_test : check_tripwire "my secret key" (some "secret") ≡ true
unfolding check_tripwire
tripwire_test = refl

execute-IsStopped_example : (r : SessionResult) × (execute demo ≡ some r) × IsStopped r
execute-IsStopped_example = execute-IsStopped demo

execute-IsLinked_example : IsLinked demo none 0 demo_result.session.emitted
execute-IsLinked_example = execute-IsLinked demo demo_result demo_ends
