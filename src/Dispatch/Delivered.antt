-- ===== src/Dispatch/Delivered.antt =====
-- What a drain sends, and what the supervisor makes of it.
use loopstorm_guard.Common.{
  ℕ, zero, suc, ◌+◌, ◌≤◌, ◌<◌, ◌≡◌, inl, inr, refl, ◌∙◌, ap, sym, String, true, false, Option, none,
  some, List, [], ◌∷◌, ◌++◌, arith, Bool-cases, append-nil, append_assoc, length-append, leb, ltb,
  ◌&&◌, length, map, All, str_eq, str_eq_iff,
}
use loopstorm_guard.Json.{◌<>◌}
use loopstorm_guard.TriggerQueue.{DedupeEntry, TriggerMessage, TriggerQueue, dequeue}
use loopstorm_guard.Supervisor.{
  Log, happen, happen_all, take_if, QueuedTrigger, Supervisor, handle_trigger, admit, is_authorized,
  is_incomplete, max_concurrent, max_queue,
}
use loopstorm_guard.Dispatch.{
  as_happening, HttpRequest, body_of, dispatch_trigger, dispatch_trigger_direct, drain_queue,
}

pub direct_lem :
    (url : String) (key : Option String) (m : TriggerMessage)
    → str_eq url "" ≡ false
    → dispatch_trigger_direct (record { supervisor_url = some url; supervisor_key = key }) m
      ≡ dispatch_trigger url key m ∷ []
unfolding dispatch_trigger_direct
direct_lem url key m is_url = rw (is_url) refl

-- With more fuel than messages a drain ends with an empty queue, and has sent one request for each
-- message, in the order of the queue.
drain_queue-sends_all :
    (url : String) (key : Option String) (n : ℕ) (messages : List TriggerMessage) (capacity : ℕ)
    (dedup : List (String × DedupeEntry))
    → str_eq url "" ≡ false
    → length messages < n
    → drain_queue
        (record { supervisor_url = some url; supervisor_key = key })
        n
        (record { queue = messages; capacity = capacity; dedup = dedup })
      ≡ some (
        record { queue = []; capacity = capacity; dedup = dedup },
        map (dispatch_trigger url key) messages,
      )
unfolding drain_queue dequeue
drain_queue-sends_all url key zero messages capacity dedup is_url h = absurd (omega arith)
drain_queue-sends_all url key (suc n) [] capacity dedup is_url h = refl
drain_queue-sends_all url key (suc n) (m ∷ ms) capacity dedup is_url h =
    rw
      (
        drain_queue,
        drain_queue-sends_all url key n ms capacity dedup is_url (omega arith),
        direct_lem url key m is_url,
      )
      refl

-- The key of the backend opens the supervisor that has the same key.
authorized_lem :
    (url : String) (key : Option String) (m : TriggerMessage)
    → is_authorized key (dispatch_trigger url key m).authorization ≡ true
authorized_lem url none m = refl
authorized_lem url (some key) m = elim (Bool-cases (str_eq key "")) [
  | inl e ↦ rw (e) refl
  | inr e ↦ rw (e) ((str_eq_iff ("Bearer " <> key) ("Bearer " <> key)).1 refl)
]

-- A message whose texts are all there.
abbrev pub IsComplete : TriggerMessage → Type 0
IsComplete m = is_incomplete (body_of m) ≡ false

-- The supervisor has room for `n` more triggers.
pub record HasRoom (n : ℕ) (s : Supervisor) : Type 0 where
  pub active : s.active_sessions ≤ max_concurrent
  pub room : s.active_sessions + length s.pending_queue + n ≤ max_concurrent + max_queue

admit-taken :
    (b : QueuedTrigger) (n : ℕ) (log : Log)
    → HasRoom (suc n) log.supervisor
    → HasRoom n (admit b log.supervisor).0
      × (take_if (admit b log.supervisor).1 (some b) log.taken ≡ log.taken ++ b ∷ [])
unfolding admit
admit-taken b n log h =
    elim (Bool-cases (
      leb max_concurrent log.supervisor.active_sessions
      && leb max_queue (length log.supervisor.pending_queue))) [
        | inl full ↦ absurd (ground arith)
        | inr free ↦ elim (Bool-cases (ltb log.supervisor.active_sessions max_concurrent)) [
          | inl e ↦
              rw (free, e) (record { active = ground arith; room = omega (arith, h.room) }, refl)
          | inr e ↦
              let longer = length-append log.supervisor.pending_queue (b ∷ []) in
              rw (free, e)
                (record { active = h.active; room = omega (arith, h.room, longer) }, refl)
        ]
      ]

-- A request of the backend is taken while there is room.
happen-taken :
    (url : String) (key : Option String) (m : TriggerMessage) (n : ℕ) (log : Log)
    → IsComplete m
    → HasRoom (suc n) log.supervisor
    → HasRoom n (happen key (as_happening (dispatch_trigger url key m)) log).supervisor
      × ((happen key (as_happening (dispatch_trigger url key m)) log).taken
          ≡ log.taken ++ body_of m ∷ [])
unfolding happen handle_trigger
happen-taken url key m n log complete room =
    rw (authorized_lem url key m, complete) (admit-taken (body_of m) n log room)

pub happen_all-taken :
    (url : String) (key : Option String) (ms : List TriggerMessage) (log : Log)
    → All IsComplete ms
    → HasRoom (length ms) log.supervisor
    → (happen_all key (map as_happening (map (dispatch_trigger url key) ms)) log).taken
      ≡ log.taken ++ map body_of ms
unfolding happen_all
happen_all-taken url key [] log complete room = sym (append-nil log.taken)
happen_all-taken url key (m ∷ ms) log (first, complete) room =
    let next = happen key (as_happening (dispatch_trigger url key m)) log in
    let (room', taken) = happen-taken url key m (length ms) log first room in
    happen_all-taken url key ms next complete room'
    ∙ ap (λ t. t ++ map body_of ms) taken
    ∙ append_assoc log.taken (body_of m ∷ []) (map body_of ms)

-- When the backend and the supervisor have the same key, the backend has the supervisor's address,
-- the messages are complete, and the supervisor has room for all of them: then a drain of the
-- queue, with more fuel than messages, empties it, and the supervisor, if the requests reach it
-- with nothing in between, takes every message, in the order of the queue.
pub drained-taken :
    (url : String) (key : Option String) (n : ℕ) (q : TriggerQueue) (log : Log)
    → str_eq url "" ≡ false
    → length q.queue < n
    → All IsComplete q.queue
    → HasRoom (length q.queue) log.supervisor
    → (sent : List HttpRequest) × (drain_queue
          (record { supervisor_url = some url; supervisor_key = key })
          n
          q
        ≡ some (record q { queue = [] }, sent))
      × ((happen_all key (map as_happening sent) log).taken ≡ log.taken ++ map body_of q.queue)
drained-taken url key n q log is_url fuel complete room = (
  map (dispatch_trigger url key) q.queue,
  drain_queue-sends_all url key n q.queue q.capacity q.dedup is_url fuel,
  happen_all-taken url key q.queue log complete room,
)
