-- ===== src/Ingest/Handler.antt =====
-- The handler `events.ingest`, with the triggers that it dispatches after the transaction.
use loopstorm_guard.Common.{
  ℕ, ◌+◌, ◌-◌, String, Bool, ◌||◌, Option, none, some, List, [], ◌∷◌, map, if◌then◌else◌, str_eq,
  length,
}
use loopstorm_guard.Common.Sort.{sort_by}
use loopstorm_guard.Triggers.{TriggerResult, EventSummary, evaluate_post_run_triggers}
use loopstorm_guard.Ingest.Batch.{
  ParsedEvent, Item, no_events, mixed_runs, forbidden, Result, ok, fail, ◌>>=◌, parse_lines,
  is_mixed, seq_of, check_seqs, verify_batch_chain,
}
use loopstorm_guard.Ingest.Store.{
  RunRow, EventRow, Db, find_run, update_run, insert_run, insert_events, sum_of, cost_of,
  input_tokens_of, output_tokens_of, calls_of, new_status, time_of,
}

pub record Response : Type 0 where
  pub run_id : String
  pub inserted : ℕ
  pub total_in_batch : ℕ
  pub skipped : ℕ
  pub last_seq : ℕ

pub record Outcome : Type 0 where
  pub db : Db
  pub response : Response
  pub dispatched : List TriggerResult

infixl 5 ◌>>◌
abbrev ◌>>◌ {ℓ} : {U : Type ℓ} (check : Result (Unit {0})) (next : Result U) → Result U
check >> next = check >>= λ passed. next

abbrev pub or_else {ℓ} : {A : Type ℓ} → Option A → A → A
or_else none d = d
or_else (some a) d = a

abbrev pub or_this {ℓ} : {A : Type ℓ} → Option A → Option A → Option A
or_this none d = d
or_this (some a) d = some a

-- Steps 1 and 2: the items of the batch, all of one run, and that run's id.
unfoldable pub single_run : List Item → Result String
unfolding is_mixed
single_run [] = fail no_events
single_run (x ∷ xs) = if is_mixed (x ∷ xs) then fail mixed_runs else ok x.event.run_id

-- `existingRun?.last_hash ?? null`.
abbrev pub prev_run_hash : Option RunRow → Option String
prev_run_hash none = none
prev_run_hash (some r) = r.last_hash

unfoldable pub check_tenant : String → Option RunRow → Result (Unit {0})
check_tenant tenant_id none = ok tt
check_tenant tenant_id (some r) = if str_eq r.tenant_id tenant_id then ok tt else fail forbidden

-- Step 8a: the aggregates of a run that is there.
unfoldable pub updated_run : List Item → Item → RunRow → RunRow
updated_run items last r = record r {
  last_seq = seq_of last;
  last_hash = some last.event.hash;
  event_count = r.event_count + length items;
  total_cost = r.total_cost + sum_of cost_of items;
  total_input_tokens = r.total_input_tokens + sum_of input_tokens_of items;
  total_output_tokens = r.total_output_tokens + sum_of output_tokens_of items;
  total_call_count = r.total_call_count + sum_of calls_of items;
  status = or_else (new_status none items) r.status;
  ended_at = or_this (time_of "run_ended" none items) r.ended_at;
}

-- Step 8b: a new run.
unfoldable pub created_run : String → String → List Item → ParsedEvent → Item → RunRow
created_run run_id tenant_id items first last = record {
  run_id = run_id;
  tenant_id = tenant_id;
  agent_name = first.agent_name;
  agent_role = first.agent_role;
  environment = first.environment;
  policy_pack_id = first.policy_pack_id;
  status = or_else (new_status none items) "started";
  event_count = length items;
  last_seq = seq_of last;
  last_hash = some last.event.hash;
  total_cost = sum_of cost_of items;
  total_input_tokens = sum_of input_tokens_of items;
  total_output_tokens = sum_of output_tokens_of items;
  total_call_count = sum_of calls_of items;
  started_at = or_else (time_of "run_started" none items) first.ts;
  ended_at = time_of "run_ended" none items;
}

abbrev pub last_item : Item → List Item → Item
last_item x [] = x
last_item x (y ∷ ys) = last_item y ys

unfoldable pub store_run :
    String → String → List Item → Item → List Item → Option RunRow → List RunRow → List RunRow
store_run run_id tenant_id items x xs none rs =
    insert_run (created_run run_id tenant_id items x.event (last_item x xs)) rs
store_run run_id tenant_id items x xs (some r) rs =
    update_run run_id tenant_id (updated_run items (last_item x xs)) rs

abbrev pub row_of : String → Item → EventRow
row_of tenant_id x = record {
  run_id = x.event.run_id;
  tenant_id = tenant_id;
  event = x.event;
  raw_line = x.raw_line;
}

unfoldable pub is_terminal : String → Bool
is_terminal s =
    str_eq s "completed"
    || (str_eq s "terminated_budget"
        || (str_eq s "terminated_loop" || (str_eq s "terminated_policy" || str_eq s "abandoned")))

abbrev pub summary_of : Item → EventSummary
summary_of x = record { event_type = x.event.event_type; decision = x.event.decision }

-- The triggers of the batch; no budget cap is looked up.
unfoldable pub dispatch_triggers : String → ℕ → List Item → List TriggerResult
unfolding is_terminal
dispatch_triggers final_status total_cost items =
    if is_terminal final_status
    then evaluate_post_run_triggers (record { status = final_status; total_cost = total_cost })
        (map summary_of items) none
    else []

abbrev old_status : Option RunRow → String
old_status none = "started"
old_status (some r) = r.status

abbrev pub old_cost : Option RunRow → ℕ
old_cost none = 0
old_cost (some r) = r.total_cost

-- Steps 7 to 9 and the dispatch, for the items `x ∷ xs` that have passed the checks.
unfoldable pub batch_outcome : String → String → Db → Option RunRow → Item → List Item → Outcome
unfolding store_run dispatch_triggers
batch_outcome run_id tenant_id db existing x xs =
    let items = x ∷ xs in
    let inserted = insert_events (map (row_of tenant_id) items) db.events in
    record {
      db = record {
        runs = store_run run_id tenant_id items x xs existing db.runs;
        events = inserted.0;
      };
      response = record {
        run_id = run_id;
        inserted = inserted.1;
        total_in_batch = length items;
        skipped = length items - inserted.1;
        last_seq = seq_of (last_item x xs);
      };
      dispatched =
          dispatch_triggers (or_else (new_status none items) (old_status existing))
            (old_cost existing + sum_of cost_of items) items;
    }

unfoldable pub store_batch : String → String → Db → Option RunRow → List Item → Result Outcome
store_batch run_id tenant_id db existing [] = fail no_events
store_batch run_id tenant_id db existing (x ∷ xs) =
    ok (batch_outcome run_id tenant_id db existing x xs)

module _ (parse_event_line : String → Option ParsedEvent) (sha256 : String → String) where
  unfoldable pub ingest_items : String → Db → List Item → Result Outcome
  unfolding check_tenant
  ingest_items tenant_id db parsed = do
    run_id ← single_run parsed
    let items = sort_by seq_of parsed
    check_seqs items
    let existing = find_run run_id tenant_id db.runs
    check_tenant tenant_id existing
    verify_batch_chain sha256 items (prev_run_hash existing)
    store_batch run_id tenant_id db existing items

  unfoldable pub ingest : String → Db → List String → Result Outcome
  ingest tenant_id db lines = do
    parsed ← parse_lines parse_event_line 0 lines
    ingest_items tenant_id db parsed
