-- ===== src/Dispatch.antt =====
-- packages/backend/src/lib/trigger-dispatch.ts: the poll that empties the trigger queue into HTTP
-- requests. A response and a failure of `fetch` are only logged; the timer and the two members of
-- the body that the supervisor does not read are left out. A drain finds the queue of one moment.
-- `send_triggers` is the loop over the triggers in `ingest` of trpc/routers/events.ts.
mod Delivered
mod Reported
mod Tests
use loopstorm_guard.Common.{
  ℕ, zero, suc, String, Bool, true, false, not, Option, none, some, List, [], ◌∷◌, ◌++◌, length,
  map, str_eq, if◌then◌else◌,
}
use loopstorm_guard.Json.{◌<>◌}
use loopstorm_guard.TriggerQueue.{TriggerMessage, TriggerQueue, dequeue}
use loopstorm_guard.Triggers.{TriggerResult}
use loopstorm_guard.Supervisor.{QueuedTrigger, Supervisor, handle_trigger, Happening, post}

-- LOOPSTORM_SUPERVISOR_URL and LOOPSTORM_SUPERVISOR_INTERNAL_KEY.
pub record Target : Type 0 where
  pub supervisor_url : Option String
  pub supervisor_key : Option String

pub record HttpRequest : Type 0 where
  pub url : String
  pub authorization : Option String
  pub body : QueuedTrigger

abbrev pub filled : Option String → Option String
filled none = none
filled (some s) = if str_eq s "" then none else some s

abbrev bearer : Option String → Option String
bearer none = none
bearer (some key) = some ("Bearer " <> key)

abbrev pub body_of : TriggerMessage → QueuedTrigger
body_of m = record {
  trigger = m.trigger;
  trigger_run_id = m.trigger_run_id;
  tenant_id = m.tenant_id;
  priority = m.priority;
}

-- `dispatchTrigger`.
abbrev pub dispatch_trigger : String → Option String → TriggerMessage → HttpRequest
dispatch_trigger supervisor_url supervisor_key m = record {
  url = supervisor_url <> "/api/trigger";
  authorization = bearer (filled supervisor_key);
  body = body_of m;
}

abbrev requests_of : Option String → Option String → TriggerMessage → List HttpRequest
requests_of none key m = []
requests_of (some url) key m = dispatch_trigger url key m ∷ []

-- `dispatchTriggerDirect`: nothing is sent without an address.
unfoldable pub dispatch_trigger_direct : Target → TriggerMessage → List HttpRequest
dispatch_trigger_direct t m = requests_of (filled t.supervisor_url) t.supervisor_key m

-- A trigger of a run that has ended, and the loop of `events.ingest` that sends the triggers.
abbrev pub message_of : String → String → String → TriggerResult → TriggerMessage
message_of run_id tenant_id now t = record {
  trigger = t.trigger;
  trigger_run_id = run_id;
  tenant_id = tenant_id;
  priority = t.priority;
  enqueued_at = now;
}

unfoldable pub send_triggers :
    Target → String → String → String → List TriggerResult → List HttpRequest
send_triggers target run_id tenant_id now [] = []
send_triggers target run_id tenant_id now (t ∷ ts) =
    dispatch_trigger_direct target (message_of run_id tenant_id now t)
    ++ send_triggers target run_id tenant_id now ts

-- `drainQueue`, on fuel: the queue, and the requests in the order in which they are sent; `none`
-- when the fuel does not suffice.
unfoldable pub drain_queue : Target → ℕ → TriggerQueue → Option (TriggerQueue × List HttpRequest)
drain_queue t zero q = none
drain_queue t (suc n) q = elim ((dequeue q).1) [
  | none ↦ some ((dequeue q).0, [])
  | some m ↦ elim (drain_queue t n (dequeue q).0) [
    | none ↦ none
    | some (rest, sent) ↦ some (rest, dispatch_trigger_direct t m ++ sent)
  ]
]

-- The requests at the supervisor.
abbrev pub as_happening : HttpRequest → Happening
as_happening r = post r.authorization (some r.body)
