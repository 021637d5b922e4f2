-- ===== src/TriggerQueue/Dedup.antt =====
-- Deduplication: what the map of recent entries promises about the accepted messages.
use loopstorm_guard.Common.{◌%◌, ◌++◌, ◌==◌}
use loopstorm_guard.TriggerQueue.{pop}
use loopstorm_guard.Common.{
  ℕ, ◌-◌, ◌≤◌, ◌<◌, ◌≡◌, ◌≢◌, ◌⊎◌, inl, inr, refl, String, false, some, List, arith, Bool-cases,
  leb, if◌then◌else◌, str_eq, str_eq_iff, ◌∷◌, All, All-map, length, [], none,
}
use loopstorm_guard.Common.Dict
use loopstorm_guard.TriggerQueue.{
  TriggerMessage, DedupeEntry, dedup_window_ms, is_expired, cleanup_dedup, is_suppressed, remember,
  History, Call, step, run, TriggerQueue, enqueue, push, dequeue, start, shift,
}

-- An accepted message is out of its window, or the map has an entry for its run that is at least
-- as recent and has at least its priority.
abbrev Covers : ℕ → List (String × DedupeEntry) → ℕ × TriggerMessage → Type 0
Covers now dedup a =
    (a.0 ≤ now)
    × ((dedup_window_ms ≤ now - a.0)
        ⊎ ((e : DedupeEntry) × (Dict.get a.1.trigger_run_id dedup ≡ some e)
            × (e.priority ≤ a.1.priority)
            × (a.0 ≤ e.timestamp)))

Covers-later :
    {now later : ℕ} (dedup : List (String × DedupeEntry)) (a : ℕ × TriggerMessage)
    → now ≤ later
    → Covers now dedup a
    → Covers later dedup a
Covers-later dedup a h (before, inl out) = (omega arith, inl (omega arith))
Covers-later dedup a h (before, inr c) = (omega arith, inr c)

Covers-cleanup :
    (now : ℕ) (dedup : List (String × DedupeEntry)) (a : ℕ × TriggerMessage)
    → Covers now dedup a
    → Covers now (cleanup_dedup now dedup) a
unfolding cleanup_dedup
Covers-cleanup now dedup a (before, inl out) = (before, inl out)
Covers-cleanup now dedup a (before, inr (e, found, high, recent)) =
    elim (Bool-cases (is_expired now e)) [
      | inl gone ↦ (before, inl (ground arith))
      | inr kept ↦ (
        before,
        inr (e, Dict.get-delete_where_kept (is_expired now) _ e dedup found kept, high, recent),
      )
    ]

-- Two accepted messages, the second later.
abbrev pub IsApart : ℕ × TriggerMessage → ℕ × TriggerMessage → Type 0
IsApart a b =
    (b.1.trigger_run_id ≢ a.1.trigger_run_id)
    ⊎ (dedup_window_ms ≤ b.0 - a.0)
    ⊎ (b.1.priority < a.1.priority)

abbrev entry : ℕ → TriggerMessage → DedupeEntry
entry now m = record { priority = m.priority; timestamp = now }

module _ (now : ℕ) (m : TriggerMessage) (dedup : List (String × DedupeEntry))
    (fresh : is_suppressed now m (Dict.get m.trigger_run_id dedup) ≡ false) where
  IsApart-fresh : (a : ℕ × TriggerMessage) → Covers now dedup a → IsApart a (now, m)
  unfolding is_suppressed
  IsApart-fresh a (before, inl out) = inr (inl out)
  IsApart-fresh a (before, inr (e, found, high, recent)) =
      elim (Bool-cases (str_eq m.trigger_run_id a.1.trigger_run_id)) [
        | inr other ↦ inl (λ same. ground (arith, str_eq_iff m.trigger_run_id a.1.trigger_run_id))
        | inl same ↦
            let ids : m.trigger_run_id ≡ a.1.trigger_run_id = (str_eq_iff _ _).0 same in
            let found' : Dict.get m.trigger_run_id dedup ≡ some e = rw ids found in
            let fresh' : is_suppressed now m (some e) ≡ false = rw (found') at fresh in ground arith
      ]

  Covers-set :
      (a : ℕ × TriggerMessage)
      → Covers now dedup a
      → Covers now (Dict.set m.trigger_run_id (entry now m) dedup) a
  unfolding is_suppressed
  Covers-set a (before, inl out) = (before, inl out)
  Covers-set a (before, inr (e, found, high, recent)) =
      elim (Bool-cases (str_eq m.trigger_run_id a.1.trigger_run_id)) [
        | inr other ↦ (before, inr (e, rw (Dict.get-set, other, if◌then◌else◌) found, high, recent))
        | inl same ↦
            let ids : m.trigger_run_id ≡ a.1.trigger_run_id = (str_eq_iff _ _).0 same in
            let found' : Dict.get m.trigger_run_id dedup ≡ some e = rw ids found in
            let fresh' : is_suppressed now m (some e) ≡ false = rw (found') at fresh in
            elim (Bool-cases (leb dedup_window_ms (now - a.0))) [
              | inl out ↦ (before, inl (ground arith))
              | inr inside ↦ (
                before,
                inr (
                  (entry now m),
                  rw (Dict.get-set, same, if◌then◌else◌) refl,
                  ground arith,
                  before,
                ),
              )
            ]
      ]

  Covers-self : Covers now (Dict.set m.trigger_run_id (entry now m) dedup) (now, m)
  Covers-self = (
    omega arith,
    inr (
      (entry now m),
      ground (
        arith,
        Dict.get-set m.trigger_run_id m.trigger_run_id (entry now m) dedup,
        str_eq_iff m.trigger_run_id m.trigger_run_id,
      ),
      omega arith,
      omega arith,
    ),
  )

remember-Covers :
    (now : ℕ) (m : TriggerMessage) (n : ℕ) (dedup : List (String × DedupeEntry))
    (a : ℕ × TriggerMessage)
    → Covers now (Dict.set m.trigger_run_id (entry now m) dedup) a
    → Covers now (remember now m n dedup) a
unfolding remember
remember-Covers now m n dedup a c = elim (Bool-cases (n % 50 == 0)) [
  | inl e ↦ rw (e, if◌then◌else◌) (Covers-cleanup now _ a c)
  | inr e ↦ rw (e, if◌then◌else◌) c
]

-- Each accepted message is apart from every older one (the newest stands first).
abbrev pub IsSpaced : List (ℕ × TriggerMessage) → Type 0
IsSpaced [] = Unit
IsSpaced (b ∷ older) = All (λ a. IsApart a b) older × IsSpaced older

record Invariant (now : ℕ) (h : History) : Type 0 where
  covered : All (Covers now h.queue.dedup) h.accepted
  spaced : IsSpaced h.accepted

-- The times of the calls do not decrease, from `now` on.
abbrev pub IsTimed : ℕ → List Call → Type 0
IsTimed now [] = Unit
IsTimed now (push t m ∷ cs) = (now ≤ t) × IsTimed t cs
IsTimed now (pop ∷ cs) = IsTimed now cs

step_push :
    (now t : ℕ) (m : TriggerMessage) (h : History)
    → now ≤ t
    → Invariant now h
    → Invariant t (step (push t m) h)
unfolding step enqueue
step_push now t m h le inv =
    let later =
      All-map (Covers now h.queue.dedup) (Covers t h.queue.dedup) h.accepted
        (λ a. Covers-later h.queue.dedup a le) inv.covered in
    elim (Bool-cases (is_suppressed t m (Dict.get m.trigger_run_id h.queue.dedup))) [
      | inl s ↦ rw (s, if◌then◌else◌) (record { covered = later; spaced = inv.spaced })
      | inr s ↦ elim (Bool-cases (leb h.queue.capacity (length h.queue.queue))) [
        | inl full ↦ rw (s, full, if◌then◌else◌) (record { covered = later; spaced = inv.spaced })
        | inr room ↦
            let n = length (h.queue.queue ++ m ∷ []) in
            rw (s, room, if◌then◌else◌)
              (record {
                covered = (
                  remember-Covers t m n h.queue.dedup (t, m) (Covers-self t m h.queue.dedup s),
                  All-map (Covers t h.queue.dedup) (Covers t (remember t m n h.queue.dedup))
                      h.accepted
                      (λ a c.
                        remember-Covers t m n h.queue.dedup a (Covers-set t m h.queue.dedup s a c))
                      later,
                );
                spaced = (
                  All-map (Covers t h.queue.dedup) (λ a. IsApart a (t, m)) h.accepted
                      (IsApart-fresh t m h.queue.dedup s) later,
                  inv.spaced,
                );
              })
      ]
    ]

run-Invariant :
    (now : ℕ) (cs : List Call) (h : History)
    → IsTimed now cs
    → Invariant now h
    → IsSpaced (run cs h).accepted
unfolding run step dequeue
run-Invariant now [] h timed inv = inv.spaced
run-Invariant now (push t m ∷ cs) h (le, timed) inv =
    run-Invariant t cs (step (push t m) h) timed (step_push now t m h le inv)
run-Invariant now (pop ∷ cs) h timed inv =
    run-Invariant now cs (step pop h) timed (record { covered = inv.covered; spaced = inv.spaced })

-- Whatever the calls, if the clock does not run backwards: of two accepted messages for the same
-- run, accepted less than 60 seconds apart, the later one has the strictly higher priority (the
-- lower number).
pub run-IsSpaced :
    (capacity now : ℕ) (cs : List Call)
    → IsTimed now cs
    → IsSpaced (run cs (start capacity)).accepted
run-IsSpaced capacity now cs timed =
    run-Invariant now cs (start capacity) timed (record { covered = tt; spaced = tt })

-- The dispatch loop drains the queue after each message: the run ids that the map then holds.
pub drain_each : List (ℕ × TriggerMessage) → TriggerQueue → TriggerQueue
drain_each [] q = q
drain_each ((now, m) ∷ ms) q = drain_each ms (dequeue (enqueue now m q).0).0

get-remember-ne-none :
    (now : ℕ) (m : TriggerMessage) (n : ℕ) (k : String) (dedup : List (String × DedupeEntry))
    → (n % 50 == 0) ≡ false
    → Dict.get k dedup ≢ none
    → Dict.get k (remember now m n dedup) ≢ none
unfolding remember
get-remember-ne-none now m n k dedup odd h =
    rw (odd, if◌then◌else◌) (ground (arith, Dict.get-set m.trigger_run_id k (entry now m) dedup))

-- If the queue is empty and each message is dispatched before the next one comes, no entry of the
-- map is ever deleted, however old it is: the cleanup waits for a queue of fifty messages.
pub drain_each_keeps :
    (ms : List (ℕ × TriggerMessage)) (q : TriggerQueue) (k : String)
    → q.queue ≡ []
    → Dict.get k q.dedup ≢ none
    → Dict.get k (drain_each ms q).dedup ≢ none
unfolding drain_each enqueue dequeue shift
drain_each_keeps [] q k e h = h
drain_each_keeps ((now, m) ∷ ms) q k e h =
    drain_each_keeps ms (dequeue (enqueue now m q).0).0 k (ground arith)
      (ground (arith, get-remember-ne-none now m 1 k q.dedup refl h))
