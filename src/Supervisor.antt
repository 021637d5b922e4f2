-- ===== src/Supervisor.antt =====
-- apps/supervisor/src/index.ts: the HTTP server of the supervisor process, which runs a bounded
-- number of sessions and keeps a bounded queue of triggers. A session is seen at its start and at
-- its end; `started` is the list of the triggers whose sessions have been started.
pub mod Bounded
pub mod Live
mod Tests
use loopstorm_guard.Common.{
  ℕ, ◌+◌, ◌-◌, String, Bool, true, false, ◌&&◌, ◌||◌, Option, none, some, List, [], ◌∷◌, ◌++◌, ltb,
  leb, if◌then◌else◌, length, str_eq, opt_str_eq,
}
use loopstorm_guard.Json.{◌<>◌}

abbrev pub max_concurrent : ℕ
max_concurrent = 5

abbrev pub max_queue : ℕ
max_queue = 50

-- A member that is missing in the body is the empty text here, which the handler treats alike.
pub record QueuedTrigger : Type 0 where
  pub trigger : String
  pub trigger_run_id : String
  pub tenant_id : String
  pub priority : ℕ

pub record Supervisor : Type 0 where
  pub active_sessions : ℕ
  pub pending_queue : List QueuedTrigger
  pub started : List QueuedTrigger

-- The start of `processTrigger`.
abbrev pub process_trigger : QueuedTrigger → Supervisor → Supervisor
process_trigger msg s = record s {
  active_sessions = s.active_sessions + 1;
  started = s.started ++ msg ∷ [];
}

-- The loop of `drainQueue`, on the queue.
unfoldable pub drain : ℕ → List QueuedTrigger → List QueuedTrigger → Supervisor
drain active [] started = record { active_sessions = active; pending_queue = []; started = started }
drain active (next ∷ rest) started =
    let drained = drain (active + 1) rest (started ++ next ∷ []) in
    if ltb active max_concurrent
    then drained
    else record { active_sessions = active; pending_queue = next ∷ rest; started = started }

abbrev pub drain_queue : Supervisor → Supervisor
drain_queue s = drain s.active_sessions s.pending_queue s.started

-- The end of `processTrigger`: its `finally` block. Without a session nothing can end.
unfoldable pub finish_session : Supervisor → Supervisor
unfolding drain
finish_session s =
    if ltb 0 s.active_sessions
    then drain_queue (record s { active_sessions = s.active_sessions - 1 })
    else s

pub data TriggerResponse : Type 0 where
  unauthorized : TriggerResponse
  invalid_json : TriggerResponse
  missing_fields : TriggerResponse
  queue_full : (queued : ℕ) → TriggerResponse
  accepted : (active_sessions queued : ℕ) → TriggerResponse

abbrev is_empty : String → Bool
is_empty s = str_eq s ""

-- Without an internal key every request is let in.
abbrev pub is_authorized : Option String → Option String → Bool
is_authorized none header = true
is_authorized (some key) header =
    if is_empty key then true else opt_str_eq header (some ("Bearer " <> key))

abbrev pub is_incomplete : QueuedTrigger → Bool
is_incomplete b = is_empty b.trigger || (is_empty b.trigger_run_id || is_empty b.tenant_id)

-- The queue and the sessions after a complete body, and the answer.
unfoldable pub admit : QueuedTrigger → Supervisor → Supervisor × TriggerResponse
admit body s =
    if leb max_concurrent s.active_sessions && leb max_queue (length s.pending_queue)
    then (s, queue_full (length s.pending_queue))
    else let s' =
        if ltb s.active_sessions max_concurrent
        then process_trigger body s
        else record s { pending_queue = s.pending_queue ++ body ∷ [] } in
      (s', accepted s'.active_sessions (length s'.pending_queue))

-- `POST /api/trigger`; the body is `none` when it is no JSON.
unfoldable pub handle_trigger :
    Option String → Option String → Option QueuedTrigger → Supervisor → Supervisor × TriggerResponse
unfolding admit
handle_trigger internal_key header body s =
    if is_authorized internal_key header
    then elim body [
      | none ↦ (s, invalid_json)
      | some b ↦ if is_incomplete b then (s, missing_fields) else admit b s
    ]
    else (s, unauthorized)

-- What happens to the process.
pub data Happening : Type 0 where
  post : (header : Option String) (body : Option QueuedTrigger) → Happening
  finish : Happening

-- The process with the triggers that it has accepted, in order.
pub record Log : Type 0 where
  pub supervisor : Supervisor
  pub taken : List QueuedTrigger

abbrev pub take_if :
    TriggerResponse → Option QueuedTrigger → List QueuedTrigger → List QueuedTrigger
take_if (accepted a q) (some b) taken = taken ++ b ∷ []
take_if r b taken = taken

unfoldable pub happen : Option String → Happening → Log → Log
happen internal_key (post header body) log =
    let (s, answer) = handle_trigger internal_key header body log.supervisor in
    record { supervisor = s; taken = take_if answer body log.taken }
happen internal_key finish log = record log { supervisor = finish_session log.supervisor }

unfoldable pub happen_all : Option String → List Happening → Log → Log
happen_all internal_key [] log = log
happen_all internal_key (h ∷ hs) log = happen_all internal_key hs (happen internal_key h log)

abbrev pub idle : Log
idle = record {
  supervisor = record { active_sessions = 0; pending_queue = []; started = [] };
  taken = [];
}
