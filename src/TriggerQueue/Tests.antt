-- ===== src/TriggerQueue/Tests.antt =====
-- Runs of the queue at concrete calls, and the theorems applied to them.
use mathlib.Core.List.{reverse}
use loopstorm_guard.Common.{ℕ, ◌≤◌, ◌≡◌, refl, String, [], ◌∷◌, ◌++◌, map, List, arith, length}
use loopstorm_guard.Common.Dict
use loopstorm_guard.TriggerQueue.{
  TriggerMessage, TriggerQueue, is_suppressed, enqueue, dequeue, size, Call, push, pop, run, start,
  empty_queue,
}
use loopstorm_guard.TriggerQueue.Fifo.{run_fifo}
use loopstorm_guard.TriggerQueue.Dedup.{IsSpaced, run-IsSpaced}

abbrev ask : String → ℕ → TriggerMessage
ask id priority = record {
  trigger = "deny_decisions";
  trigger_run_id = id;
  tenant_id = "t";
  priority = priority;
  enqueued_at = "";
}

-- The second message of run "a" is suppressed, the third has a higher priority, the fourth comes
-- when the queue is full.
abbrev calls : List Call
calls =
    push 1000 (ask "a" 3)
    ∷ push 2000 (ask "a" 3)
    ∷ push 3000 (ask "a" 1)
    ∷ push 4000 (ask "b" 2)
    ∷ pop
    ∷ push 70_000 (ask "a" 3)
    ∷ []

run_test :
    ((run calls (start 2)).delivered ≡ ask "a" 3 ∷ [])
    × ((run calls (start 2)).queue.queue ≡ ask "a" 1 ∷ ask "a" 3 ∷ [])
unfolding run Dict.get loopstorm_guard.TriggerQueue.remember Dict.set
run_test = (refl, refl)

run_fifo_example :
    (reverse (map (λ e. e.1) (run calls (start 2)).accepted)
      ≡ (run calls (start 2)).delivered ++ (run calls (start 2)).queue.queue)
    × (length (run calls (start 2)).queue.queue ≤ 2)
run_fifo_example = run_fifo 2 calls

run-IsSpaced_example : IsSpaced (run calls (start 2)).accepted
run-IsSpaced_example = run-IsSpaced 2 0 calls (omega arith)

-- A week later the entry of run "a" is still there.
abbrev used : TriggerQueue
used = record (empty_queue 100) { dedup = ("a", record { priority = 3; timestamp = 1000 }) ∷ [] }
