-- ===== src/TriggerQueue.antt =====
-- packages/backend/src/lib/trigger-queue.ts: the bounded queue between trigger evaluation and
-- dispatch. `Date.now()` is the argument `now`, in milliseconds.
pub mod Fifo
pub mod Dedup
mod Tests
use loopstorm_guard.Common.{
  ℕ, ◌+◌, ◌-◌, ◌%◌, String, Bool, true, false, ◌&&◌, Option, none, some, List, [], ◌∷◌, ◌++◌, ltb,
  leb, ◌==◌, if◌then◌else◌, length,
}
use loopstorm_guard.Common.Dict

pub record TriggerMessage : Type 0 where
  pub trigger : String
  pub trigger_run_id : String
  pub tenant_id : String
  pub priority : ℕ
  pub enqueued_at : String

pub record DedupeEntry : Type 0 where
  pub priority : ℕ
  pub timestamp : ℕ

abbrev pub default_capacity : ℕ
default_capacity = 100

abbrev pub dedup_window_ms : ℕ
dedup_window_ms = 60_000

pub record TriggerQueue : Type 0 where
  pub queue : List TriggerMessage
  pub capacity : ℕ
  pub dedup : List (String × DedupeEntry)

abbrev pub empty_queue : ℕ → TriggerQueue
empty_queue capacity = record { queue = []; capacity = capacity; dedup = [] }

-- `cleanupDedup(now)`: the entries whose window is over are deleted.
abbrev pub is_expired : ℕ → DedupeEntry → Bool
is_expired now e = leb dedup_window_ms (now - e.timestamp)

pub cleanup_dedup : ℕ → List (String × DedupeEntry) → List (String × DedupeEntry)
cleanup_dedup now = Dict.delete_where (is_expired now)

-- The test that suppresses a message: an entry of the same run, still in its window, whose
-- priority is as high (a lower number is a higher priority).
pub is_suppressed : ℕ → TriggerMessage → Option DedupeEntry → Bool
is_suppressed now message none = false
is_suppressed now message (some existing) =
    ltb (now - existing.timestamp) dedup_window_ms && leb existing.priority message.priority

-- `this.dedup.set(…)`, and the cleanup when the new length is a multiple of 50.
pub remember : ℕ → TriggerMessage → ℕ → List (String × DedupeEntry) → List (String × DedupeEntry)
unfolding cleanup_dedup
remember now message size dedup =
    let entry : DedupeEntry = record { priority = message.priority; timestamp = now } in
    let dedup' = Dict.set message.trigger_run_id entry dedup in
    if size % 50 == 0 then cleanup_dedup now dedup' else dedup'

pub enqueue : ℕ → TriggerMessage → TriggerQueue → TriggerQueue × Bool
unfolding is_suppressed
enqueue now message q =
    if is_suppressed now message (Dict.get message.trigger_run_id q.dedup)
    then (q, false)
    else if leb q.capacity (length q.queue)
    then (q, false)
    else let queue' = q.queue ++ message ∷ [] in
      (record q { queue = queue'; dedup = remember now message (length queue') q.dedup }, true)

unfoldable pub shift : List TriggerMessage → Option TriggerMessage × List TriggerMessage
shift [] = (none, [])
shift (m ∷ ms) = (some m, ms)

-- `this.queue.shift() ?? null`.
unfoldable pub dequeue : TriggerQueue → TriggerQueue × Option TriggerMessage
unfolding shift
dequeue q = (record q { queue = (shift q.queue).1 }, (shift q.queue).0)

pub size : TriggerQueue → ℕ
size q = length q.queue

-- A client's calls, with the time of each.
pub data Call : Type 0 where
  push : ℕ → TriggerMessage → Call
  pop : Call

-- The queue with what it has accepted (newest first, with the time) and delivered (oldest first).
pub record History : Type 0 where
  pub queue : TriggerQueue
  pub accepted : List (ℕ × TriggerMessage)
  pub delivered : List TriggerMessage

abbrev note : Option TriggerMessage → List TriggerMessage → List TriggerMessage
note none ms = ms
note (some m) ms = ms ++ m ∷ []

pub step : Call → History → History
unfolding enqueue dequeue
step (push now m) h =
    let (q, taken) = enqueue now m h.queue in
    record {
      queue = q;
      accepted = if taken then (now, m) ∷ h.accepted else h.accepted;
      delivered = h.delivered;
    }
step pop h =
    let (q, m) = dequeue h.queue in
    record { queue = q; accepted = h.accepted; delivered = note m h.delivered }

pub run : List Call → History → History
unfolding step
run [] h = h
run (c ∷ cs) h = run cs (step c h)

abbrev pub start : ℕ → History
start capacity = record { queue = empty_queue capacity; accepted = []; delivered = [] }
