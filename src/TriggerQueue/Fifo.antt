-- ===== src/TriggerQueue/Fifo.antt =====
-- The queue as a bounded first-in first-out buffer.
use mathlib.Core.List.{reverse, reverse-cons}
use loopstorm_guard.Common.{
  ℕ, ◌≤◌, ◌<◌, ◌≡◌, refl, sym, ◌∙◌, true, false, List, [], ◌∷◌, ◌++◌, map, append_assoc, arith,
  length, length-append, ◌⊎◌, inl, inr, Bool-cases, leb, if◌then◌else◌,
}
use loopstorm_guard.Common.Dict
use loopstorm_guard.TriggerQueue.{
  TriggerMessage, TriggerQueue, is_suppressed, enqueue, shift, dequeue, Call, push, pop, History,
  note, step, run, start,
}

-- The queue holds at most `capacity` messages.
abbrev pub IsBounded : TriggerQueue → Type 0
IsBounded q = length q.queue ≤ q.capacity

enqueue-IsBounded :
    (now : ℕ) (m : TriggerMessage) (q : TriggerQueue) → IsBounded q → IsBounded (enqueue now m q).0
unfolding enqueue
enqueue-IsBounded now m q h = ground (arith, length-append q.queue (m ∷ []))

dequeue-IsBounded : (q : TriggerQueue) → IsBounded q → IsBounded (dequeue q).0
unfolding dequeue
dequeue-IsBounded q h = ground arith

-- What the client has put in and got out, and what is still there.
abbrev pub IsFifo : History → Type 0
IsFifo h = reverse (map (λ e. e.1) h.accepted) ≡ h.delivered ++ h.queue.queue

pub step-IsFifo : (c : Call) (h : History) → IsFifo h → IsFifo (step c h)
unfolding step enqueue dequeue
step-IsFifo (push now m) h e =
    elim (Bool-cases (is_suppressed now m (Dict.get m.trigger_run_id h.queue.dedup))) [
      | inl s ↦ rw (s, if◌then◌else◌) e
      | inr s ↦ elim (Bool-cases (leb h.queue.capacity (length h.queue.queue))) [
        | inl full ↦ rw (s, full, if◌then◌else◌) e
        | inr room ↦
            rw (s, room, if◌then◌else◌, reverse-cons, e) (append_assoc h.delivered h.queue.queue _)
      ]
    ]
step-IsFifo pop h e = pop-case h.queue.queue e
  where
    pop-case :
        (ms : List TriggerMessage)
        → reverse (map (λ e. e.1) h.accepted) ≡ h.delivered ++ ms
        → reverse (map (λ e. e.1) h.accepted) ≡ note (shift ms).0 h.delivered ++ (shift ms).1
    pop-case [] e = e
    pop-case (x ∷ ms) e = e ∙ sym (append_assoc h.delivered (x ∷ []) ms)

pub run-IsFifo : (cs : List Call) (h : History) → IsFifo h → IsFifo (run cs h)
unfolding run
run-IsFifo [] h e = e
run-IsFifo (c ∷ cs) h e = run-IsFifo cs (step c h) (step-IsFifo c h e)

step-IsBounded :
    (c : Call) (h : History)
    → IsBounded h.queue
    → IsBounded (step c h).queue × ((step c h).queue.capacity ≡ h.queue.capacity)
unfolding step enqueue dequeue
step-IsBounded (push now m) h b = ground (arith, length-append h.queue.queue (m ∷ []))
step-IsBounded pop h b = ground (arith)

run-IsBounded :
    (cs : List Call) (h : History)
    → IsBounded h.queue
    → IsBounded (run cs h).queue × ((run cs h).queue.capacity ≡ h.queue.capacity)
unfolding run
run-IsBounded [] h b = (b, refl)
run-IsBounded (c ∷ cs) h b =
    let (b', e) = step-IsBounded c h b in
    let (b'', e') = run-IsBounded cs (step c h) b' in (b'', e' ∙ e)

-- Whatever the calls, from an empty queue of any capacity: the messages delivered so far, in
-- order of delivery, followed by those still queued, are exactly the accepted messages in order
-- of acceptance, and never more than `capacity` are queued.
pub run_fifo :
    (capacity : ℕ) (cs : List Call)
    → (reverse (map (λ e. e.1) (run cs (start capacity)).accepted)
        ≡ (run cs (start capacity)).delivered ++ (run cs (start capacity)).queue.queue)
      × (length (run cs (start capacity)).queue.queue ≤ capacity)
run_fifo capacity cs =
    let (b, e) = run-IsBounded cs (start capacity) (omega arith) in
    (run-IsFifo cs (start capacity) refl, omega arith)

-- A message is refused exactly when it is suppressed or the queue is full, and then the queue is
-- left as it was; an accepted message goes to the end.
pub enqueue_result :
    (now : ℕ) (m : TriggerMessage) (q : TriggerQueue)
    → (((enqueue now m q).1 ≡ true)
        × (is_suppressed now m (Dict.get m.trigger_run_id q.dedup) ≡ false)
        × (length q.queue < q.capacity)
        × ((enqueue now m q).0.queue ≡ q.queue ++ m ∷ []))
      ⊎ (((enqueue now m q).1 ≡ false)
          × ((is_suppressed now m (Dict.get m.trigger_run_id q.dedup) ≡ true)
              ⊎ (q.capacity ≤ length q.queue))
          × ((enqueue now m q).0 ≡ q))
unfolding enqueue
enqueue_result now m q =
    elim (Bool-cases (is_suppressed now m (Dict.get m.trigger_run_id q.dedup))) [
      | inl s ↦ inr (rw (s, if◌then◌else◌) (refl, inl refl, refl))
      | inr s ↦ elim (Bool-cases (leb q.capacity (length q.queue))) [
        | inl full ↦
            let le : q.capacity ≤ length q.queue = ground arith in
            inr (rw (s, full, if◌then◌else◌) (refl, inr le, refl))
        | inr room ↦
            let lt : length q.queue < q.capacity = ground arith in
            inl (rw (s, room, if◌then◌else◌) (refl, refl, lt, refl))
      ]
    ]
