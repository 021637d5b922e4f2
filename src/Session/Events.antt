-- ===== src/Session/Events.antt =====
-- The state of a session and `emitEvent` of apps/supervisor/src/session.ts.
use loopstorm_guard.Common.{
  ℕ, ◌+◌, ◌*◌, String, Bool, Option, none, some, List, [], ◌∷◌, ◌++◌, leb, if◌then◌else◌,
}
use loopstorm_guard.Json.{Json, number, str, obj, Fields, end, field}
use loopstorm_guard.Session.Sanitize.{stringify}

pub data ContentBlock : Type 0 where
  text : String → ContentBlock
  tool_use : (id name : String) (input : Json) → ContentBlock
  tool_result : (tool_use_id content : String) → ContentBlock

pub data Message : Type 0 where
  asked : String → Message
  assistant : List ContentBlock → Message
  user : List ContentBlock → Message

pub record LlmResponse : Type 0 where
  pub content : List ContentBlock
  pub stop_reason : String
  pub input_tokens : ℕ
  pub output_tokens : ℕ

-- How the handler of a tool ends.
pub data ToolOutcome : Type 0 where
  answered : Json → ToolOutcome
  failed : (message : String) → ToolOutcome

-- The session's parameters, and what lies outside of it: the answers of the model to a
-- conversation (`none` is an error), of the handler at each call, whether the backend confirms an event,
-- the clock at each event, the hash function, and the printing of numbers.
pub record SessionParams : Type 0 where
  pub supervisor_run_id : String
  pub supervisor_run_uuid : String
  pub trigger : String
  pub trigger_run_id : String
  pub internal_key : Option String
  pub chat : List Message → Option LlmResponse
  pub handle_tool : ℕ → String → Json → ToolOutcome
  pub confirms_event : ℕ → Bool
  pub clock : ℕ → String
  pub sha256 : String → String
  pub show : ℕ → String

pub record Event : Type 0 where
  pub event_type : String
  pub seq : ℕ
  pub ts : String
  pub extra : Fields

-- An event as the backend gets it.
pub record Emitted : Type 0 where
  pub event : Event
  pub hash : String
  pub hash_prev : Option String

pub record Session : Type 0 where
  pub total_input_tokens : ℕ
  pub total_output_tokens : ℕ
  pub tool_call_count : ℕ
  pub event_seq : ℕ
  pub last_hash : Option String
  pub emitted : List Emitted

abbrev pub new_session : Session
new_session = record {
  total_input_tokens = 0;
  total_output_tokens = 0;
  tool_call_count = 0;
  event_seq = 0;
  last_hash = none;
  emitted = [];
}

-- Costs are counted in hundred-millionths of a dollar, exactly where the code rounds.
abbrev pub cost_per_input_token : ℕ
cost_per_input_token = 27

abbrev pub cost_per_output_token : ℕ
cost_per_output_token = 110

abbrev pub max_session_cost : ℕ
max_session_cost = 200000000

abbrev pub max_tool_calls : ℕ
max_tool_calls = 100

abbrev pub estimated_cost : Session → ℕ
estimated_cost s =
    s.total_input_tokens * cost_per_input_token + s.total_output_tokens * cost_per_output_token

abbrev pub is_exhausted : Session → Bool
is_exhausted s = leb max_session_cost (estimated_cost s)

unfoldable pub payload : SessionParams → Event → Json
payload w event = obj (
    field "schema_version" (number "1") (
      field "event_type" (str event.event_type) (
        field "run_id" (str w.supervisor_run_uuid) (
          field "seq" (number (w.show event.seq)) (
            field "ts" (str event.ts) (
              field "supervisor_run_id" (str w.supervisor_run_id)
                (field "agent_name" (str "loopstorm-supervisor") event.extra)))))))

-- An event that the backend does not confirm uses up its number; `emitted` are the confirmed ones.
unfoldable pub emit_event : SessionParams → String → Fields → Session → Session
unfolding payload stringify
emit_event w event_type extra s =
    let seq = s.event_seq + 1 in
    let event : Event = record {
      event_type = event_type;
      seq = seq;
      ts = w.clock seq;
      extra = extra;
    } in
    let hash = w.sha256 (stringify (payload w event)) in
    if w.confirms_event seq
    then record s {
      event_seq = seq;
      last_hash = some hash;
      emitted = s.emitted ++ record { event = event; hash = hash; hash_prev = s.last_hash } ∷ [];
    }
    else record s { event_seq = seq }

-- The members of every event: the trigger and its run.
abbrev pub about : SessionParams → Fields → Fields
about w rest = field "trigger" (str w.trigger) (field "trigger_run_id" (str w.trigger_run_id) rest)

abbrev pub rationale_event : SessionParams → String → Fields
rationale_event w rationale = about w (field "rationale" (str rationale) end)
