-- ===== src/Tools/Emit.antt =====
-- `supervisorTools.emitEvent`: the row that it stores and what it does to the run of the supervisor.
use loopstorm_guard.Common.{
  ◌+◌, String, Option, none, some, List, [], ◌∷◌, any, str_eq, if◌then◌else◌,
}
use loopstorm_guard.Json.{get_field, Json, null, undefined, number, str, obj, Fields, end, field}
use loopstorm_guard.Ingest.Batch.{ParsedEvent}
use loopstorm_guard.Ingest.Store.{
  RunRow, EventRow, Db, find_run, update_run, insert_run, insert_events,
}
use loopstorm_guard.Session.Sanitize.{stringify}
use loopstorm_guard.Session.Events.{SessionParams, Emitted, payload}
use loopstorm_guard.Tools.Schema.{Formats, parse_members, parse_emit}

abbrev text_of : Json → String
text_of (str s) = s
text_of value = ""

abbrev optional_text : Json → Option String
optional_text (str s) = some s
optional_text value = none

abbrev number_text : Json → String
number_text (number n) = n
number_text value = ""

-- The columns that are copied; one that is not there is null.
abbrev copied_columns : List String
copied_columns =
    "supervisor_run_id" ∷ "trigger" ∷ "trigger_run_id" ∷ "proposal_id" ∷ "proposal_type"
    ∷ "target_agent" ∷ "rationale" ∷ "confidence" ∷ "supporting_runs" ∷ "status" ∷ "escalation_id"
    ∷ "severity" ∷ "recommendation" ∷ "timeout_seconds" ∷ "timeout_action" ∷ []

abbrev or_null : Json → Json
or_null undefined = null
or_null value = value

abbrev copy_columns : List String → Fields → Fields
copy_columns [] fs = end
copy_columns (name ∷ names) fs = field name (or_null (get_field name fs)) (copy_columns names fs)

abbrev pub emitted_event : Formats → Fields → ParsedEvent
emitted_event z fs = record {
  event_type = text_of (get_field "event_type" fs);
  run_id = text_of (get_field "run_id" fs);
  seq = z.value_of (number_text (get_field "seq" fs));
  ts = text_of (get_field "ts" fs);
  hash = text_of (get_field "hash" fs);
  hash_prev = optional_text (get_field "hash_prev" fs);
  agent_name = optional_text (get_field "agent_name" fs);
  agent_role = none;
  environment = none;
  policy_pack_id = none;
  decision = none;
  run_status = none;
  input_tokens = none;
  output_tokens = none;
  estimated_cost = none;
  other = copy_columns copied_columns fs;
}

abbrev pub emitted_row : Formats → String → Fields → EventRow
emitted_row z tenant_id fs = record {
  run_id = (emitted_event z fs).run_id;
  tenant_id = tenant_id;
  event = emitted_event z fs;
  raw_line = stringify (obj fs);
}

abbrev or_supervisor : Option String → Option String
or_supervisor none = some "loopstorm-supervisor"
or_supervisor name = name

abbrev pub first_run : String → ParsedEvent → RunRow
first_run tenant_id e = record {
  run_id = e.run_id;
  tenant_id = tenant_id;
  agent_name = or_supervisor e.agent_name;
  agent_role = none;
  environment = none;
  policy_pack_id = none;
  status = "started";
  event_count = 1;
  last_seq = e.seq;
  last_hash = some e.hash;
  total_cost = 0;
  total_input_tokens = 0;
  total_output_tokens = 0;
  total_call_count = 0;
  started_at = e.ts;
  ended_at = none;
}

abbrev pub next_run : ParsedEvent → RunRow → RunRow
next_run e r = record r {
  last_seq = e.seq;
  last_hash = some e.hash;
  event_count = r.event_count + 1;
}

abbrev pub upsert_run : String → ParsedEvent → List RunRow → List RunRow
upsert_run tenant_id e runs = elim (find_run e.run_id tenant_id runs) [
  | none ↦ insert_run (first_run tenant_id e) runs
  | some r ↦ update_run e.run_id tenant_id (next_run e) runs
]

abbrev pub store_emitted : Formats → String → Fields → Db → Db
store_emitted z tenant_id fs db = record {
  events = (insert_events (emitted_row z tenant_id fs ∷ []) db.events).0;
  runs = upsert_run tenant_id (emitted_event z fs) db.runs;
}

pub data EmitAnswer : Type 0 where
  bad_request : EmitAnswer
  forbidden : EmitAnswer
  stored : EmitAnswer

-- `emitEvent`: the input is parsed before the scope is looked at.
unfoldable pub receive_event : Formats → List String → String → Json → Db → Db × EmitAnswer
unfolding parse_members
receive_event z scopes tenant_id body db = elim (parse_emit z body) [
  | none ↦ (db, bad_request)
  | some fs ↦
      if any (str_eq "supervisor") scopes
      then (store_emitted z tenant_id fs db, stored)
      else (db, forbidden)
]

abbrev digest_or_null : Option String → Json
digest_or_null none = null
digest_or_null (some hash) = str hash

abbrev pub append_fields : Fields → Fields → Fields
append_fields end rest = rest
append_fields (field k v fs) rest = field k v (append_fields fs rest)

abbrev with_members : Json → Fields → Json
with_members (obj fs) rest = obj (append_fields fs rest)
with_members value rest = value

abbrev pub hashes_of : Emitted → Fields
hashes_of e = field "hash" (str e.hash) (field "hash_prev" (digest_or_null e.hash_prev) end)

-- What `emitEvent` of apps/supervisor/src/session.ts sends: the payload and the hashes.
abbrev pub request_body : SessionParams → Emitted → Json
unfolding payload
request_body w e = with_members (payload w e.event) (hashes_of e)
