-- ===== src/Dispatch/Tests.antt =====
-- A drain of two messages, and a batch of one event.
use loopstorm_guard.Common.{◌≡◌, refl, String, some, List, [], ◌∷◌, ◌++◌, map, arith}
use loopstorm_guard.TriggerQueue.{TriggerMessage, TriggerQueue}
use loopstorm_guard.Supervisor.{happen_all, idle}
use loopstorm_guard.Dispatch.{HttpRequest, body_of, as_happening, drain_queue}
use loopstorm_guard.Dispatch.Delivered.{drained-taken}
use loopstorm_guard.Common.{none, Any}
use loopstorm_guard.Common.Sort.{sort_by}
use loopstorm_guard.Common.Texts.{trim_end}
use loopstorm_guard.Json.{end}
use loopstorm_guard.Triggers.{TriggerResult, evaluate_post_run_triggers, fire}
use loopstorm_guard.Triggers.Fired.{terminated_budget}
use loopstorm_guard.Ingest.Batch.{
  ParsedEvent, Item, ok, parse_lines, seq_of, check_seqs, verify_batch_chain,
}
use loopstorm_guard.Ingest.Store.{
  Db, find_run, insert_run, insert_events, ended_status, new_status, sum_of, time_of,
}
use loopstorm_guard.Ingest.Handler.{
  Outcome, ingest, ingest_items, single_run, store_batch, batch_outcome, created_run, row_of,
}
use loopstorm_guard.Dispatch.{message_of}
use loopstorm_guard.Dispatch.Reported.{ended_run-taken, taken_after}

abbrev message : String → TriggerMessage
message run_id = record {
  trigger = "deny_decisions";
  trigger_run_id = run_id;
  tenant_id = "t1";
  priority = 3;
  enqueued_at = "now";
}

abbrev two : TriggerQueue
two = record { queue = message "a" ∷ message "b" ∷ []; capacity = 100; dedup = [] }

drained-taken_example :
    (sent : List HttpRequest) × (drain_queue
        (record { supervisor_url = some "http://s"; supervisor_key = some "k" })
        3
        two
      ≡ some (record two { queue = [] }, sent))
    × ((happen_all (some "k") (map as_happening sent) idle).taken
        ≡ [] ++ map body_of (message "a" ∷ message "b" ∷ []))
drained-taken_example =
    drained-taken "http://s" (some "k") 3 two idle refl (omega arith) (refl, (refl, tt))
      (record { active = omega arith; room = omega arith })

abbrev ended : ParsedEvent
ended = record {
  event_type = "run_ended";
  run_id = "r";
  seq = 1;
  ts = "t";
  hash = "line";
  hash_prev = none;
  agent_name = none;
  agent_role = none;
  environment = none;
  policy_pack_id = none;
  decision = some "deny";
  run_status = some "budget_exceeded";
  input_tokens = none;
  output_tokens = none;
  estimated_cost = none;
  other = end;
}

abbrev items : List Item
items = record { event = ended; raw_line = "line" } ∷ []

abbrev no_rows : Db
no_rows = record { runs = []; events = [] }

abbrev due : TriggerResult
due = record { trigger = "terminated_budget"; priority = 1 }

abbrev outcome : Outcome
outcome = record {
  db = record {
    runs = created_run "r" "t1" items ended (record { event = ended; raw_line = "line" }) ∷ [];
    events = row_of "t1" (record { event = ended; raw_line = "line" }) ∷ [];
  };
  response = record { run_id = "r"; inserted = 1; total_in_batch = 1; skipped = 0; last_seq = 1 };
  dispatched = due ∷ record { trigger = "deny_decisions"; priority = 3 } ∷ [];
}

ended_parsed : parse_lines (λ line. some ended) 0 ("line" ∷ []) ≡ ok items
unfolding parse_lines trim_end
ended_parsed = refl

ended_run : single_run items ≡ ok "r"
unfolding single_run
ended_run = refl

ended_sorted : sort_by seq_of items ≡ items
unfolding sort_by
ended_sorted = refl

ended_batch : ingest (λ line. some ended) (λ line. line) "t1" no_rows ("line" ∷ []) ≡ ok outcome
unfolding ingest parse_lines trim_end ingest_items single_run check_seqs sort_by find_run
    verify_batch_chain store_batch batch_outcome insert_run insert_events new_status
    evaluate_post_run_triggers sum_of time_of fire
ended_batch = refl

is_budget : ended_status (some "budget_exceeded") ≡ "terminated_budget"
unfolding ended_status
is_budget = refl

ended_run-taken_example :
    Any
      (λ b. b ≡ body_of (message_of "r" "t1" "now" due))
      (taken_after "http://s" (some "k") refl "r" "t1" "now" refl refl idle outcome.dispatched)
ended_run-taken_example =
    ended_run-taken "http://s" (some "k") refl "r" "t1" "now" refl refl idle (λ line. some ended)
      (λ line. line) no_rows ("line" ∷ []) items (record { event = ended; raw_line = "line" }) []
      outcome due ended_parsed ended_run ended_sorted refl ended_batch
      (record { active = omega arith; room = omega arith }) (terminated_budget is_budget refl)
