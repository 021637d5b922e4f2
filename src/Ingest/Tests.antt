-- ===== src/Ingest/Tests.antt =====
-- Runs of the handler on small batches.
use loopstorm_guard.Common.Texts.{trim_end}
use loopstorm_guard.Common.{
  ℕ, ◌≡◌, ◌≢◌, inl, refl, String, Option, none, some, List, [], ◌∷◌, map, arith, if◌then◌else◌,
  str_eq, false, str_eq_iff, All, ◌<◌,
}
use loopstorm_guard.Common.Sort.{sort_by}
use loopstorm_guard.ChainVerify.{verify_chain, valid}
use loopstorm_guard.Json.{end}
use loopstorm_guard.Ingest.Batch.{
  ParsedEvent, Item, ok, fail, link_failure, parse_lines, seq_of, check_seqs, verify_batch_chain,
  is_mixed,
}
use loopstorm_guard.Ingest.Store.{
  RunRow, EventRow, Db, find_run, insert_run, update_run, insert_events, sum_of, new_status,
  time_of,
}
use loopstorm_guard.Ingest.Handler.{
  Outcome, single_run, row_of, ingest, ingest_items, store_batch, batch_outcome, updated_run,
  created_run,
}
use loopstorm_guard.Ingest.Chained.{chain_event, stored}
use loopstorm_guard.Ingest.Accepted.{IsStored, Extends, ingest-Extends, ingest-verify_chain}
use loopstorm_guard.Ingest.Recorded.{prev_seq, prev_count}
use loopstorm_guard.Ingest.Rejected.{engine_line_refused, resent_refused}

-- A stand-in for the digest, and four lines of the run "r".
abbrev pub digest : String → String
digest s = s

abbrev line_event : String → ℕ → String → Option String → ParsedEvent
line_event type seq hash hash_prev = record {
  event_type = type;
  run_id = "r";
  seq = seq;
  ts = "t";
  hash = hash;
  hash_prev = hash_prev;
  agent_name = none;
  agent_role = none;
  environment = none;
  policy_pack_id = none;
  decision = none;
  run_status = none;
  input_tokens = none;
  output_tokens = none;
  estimated_cost = some 2;
  other = end;
}

abbrev event_a : ParsedEvent
event_a = line_event "run_started" 1 "a" none

abbrev event_b : ParsedEvent
event_b = line_event "tool_call" 2 "b" (some "a")

abbrev event_c : ParsedEvent
event_c = line_event "run_ended" 3 "c" (some "b")

abbrev pub parse : String → Option ParsedEvent
parse s =
    if str_eq s "a"
    then some event_a
    else if str_eq s "b"
    then some event_b
    else if str_eq s "c"
    then some event_c
    else if str_eq s "e"
    then some (line_event "tool_call" 4 "p" (some "c"))
    else none

abbrev item : ParsedEvent → String → Item
item event raw_line = record { event = event; raw_line = raw_line }

abbrev no_rows : Db
no_rows = record { runs = []; events = [] }

abbrev first_lines : List String
first_lines = "b " ∷ "" ∷ "a" ∷ []

abbrev first_items : List Item
first_items = item event_b "b" ∷ item event_a "a" ∷ []

abbrev row : Item → EventRow
row x = row_of "t1" x

abbrev pub run_1 : RunRow
run_1 = record {
  run_id = "r";
  tenant_id = "t1";
  agent_name = none;
  agent_role = none;
  environment = none;
  policy_pack_id = none;
  status = "started";
  event_count = 2;
  last_seq = 2;
  last_hash = some "b";
  total_cost = 4;
  total_input_tokens = 0;
  total_output_tokens = 0;
  total_call_count = 0;
  started_at = "t";
  ended_at = none;
}

abbrev pub db_1 : Db
db_1 = record { runs = run_1 ∷ []; events = row (item event_a "a") ∷ row (item event_b "b") ∷ [] }

abbrev outcome_1 : Outcome
outcome_1 = record {
  db = db_1;
  response = record { run_id = "r"; inserted = 2; total_in_batch = 2; skipped = 0; last_seq = 2 };
  dispatched = [];
}

first_parsed : parse_lines parse 0 first_lines ≡ ok first_items
unfolding parse_lines trim_end
first_parsed = refl

first_run : single_run first_items ≡ ok "r"
unfolding single_run is_mixed
first_run = refl

first_batch : ingest parse digest "t1" no_rows first_lines ≡ ok outcome_1
unfolding ingest parse_lines trim_end ingest_items single_run check_seqs sort_by find_run
    verify_batch_chain store_batch batch_outcome insert_run insert_events new_status created_run
    sum_of time_of
first_batch = refl

empty_known : IsStored digest "r" "t1" no_rows
unfolding find_run
empty_known = record { known = refl; chained = (refl, refl); owned = tt; counted = refl }

new_run : find_run "r" "t1" no_rows.runs ≡ none
unfolding find_run
new_run = refl

first_fresh : prev_seq (find_run "r" "t1" no_rows.runs) ≡ 0
unfolding find_run
first_fresh = refl

pub parse_empty : parse "" ≡ none
parse_empty = refl

pub db_1-IsStored : IsStored digest "r" "t1" db_1
db_1-IsStored =
    (ingest-Extends parse digest parse_empty "r" "t1" no_rows first_lines first_items outcome_1
      first_parsed first_run empty_known (rw first_fresh (omega arith, (omega arith, tt)))
      first_batch).is_stored

-- The second batch ends the run.
abbrev pub last_items : List Item
last_items = item event_c "c" ∷ []

abbrev pub run_2 : RunRow
run_2 = record run_1 {
  status = "completed";
  event_count = 3;
  last_seq = 3;
  last_hash = some "c";
  total_cost = 6;
  ended_at = some "t";
}

abbrev pub outcome_2 : Outcome
outcome_2 = record {
  db = record {
    runs = run_2 ∷ [];
    events = row (item event_a "a") ∷ row (item event_b "b") ∷ row (item event_c "c") ∷ [];
  };
  response = record { run_id = "r"; inserted = 1; total_in_batch = 1; skipped = 0; last_seq = 3 };
  dispatched = [];
}

pub last_parsed : parse_lines parse 0 ("c" ∷ []) ≡ ok last_items
unfolding parse_lines trim_end
last_parsed = refl

pub last_run : single_run last_items ≡ ok "r"
unfolding single_run
last_run = refl

pub last_batch : ingest parse digest "t1" db_1 ("c" ∷ []) ≡ ok outcome_2
unfolding ingest parse_lines trim_end ingest_items single_run check_seqs sort_by find_run
    verify_batch_chain store_batch batch_outcome update_run insert_events new_status updated_run
    loopstorm_guard.Triggers.evaluate_post_run_triggers sum_of time_of loopstorm_guard.Triggers.fire
last_batch = refl

known_seq : prev_seq (find_run "r" "t1" db_1.runs) ≡ 2
unfolding find_run
known_seq = refl

pub last_fresh : All (λ x. prev_seq (find_run "r" "t1" db_1.runs) < seq_of x) last_items
last_fresh = rw known_seq (omega arith, tt)

ingest-Extends_example : Extends digest "r" "t1" db_1 (sort_by seq_of last_items) outcome_2
ingest-Extends_example =
    ingest-Extends parse digest parse_empty "r" "t1" db_1 ("c" ∷ []) last_items outcome_2
      last_parsed last_run db_1-IsStored last_fresh last_batch

ingest-verify_chain_example :
    verify_chain digest (map chain_event (stored "r" outcome_2.db.events))
    ≡ valid (prev_count (find_run "r" "t1" outcome_2.db.runs))
ingest-verify_chain_example =
    ingest-verify_chain parse digest parse_empty "r" "t1" db_1 ("c" ∷ []) last_items outcome_2
      last_parsed last_run db_1-IsStored last_fresh last_batch

resent_refused_example : ingest parse digest "t1" db_1 first_lines ≢ ok outcome_1
resent_refused_example =
    resent_refused parse digest parse_empty "r" "t1" no_rows first_lines first_items first_parsed
      first_run empty_known new_run (omega arith, (omega arith, tt)) outcome_1 first_batch outcome_1

resent_again : ingest parse digest "t1" db_1 first_lines ≡ fail (link_failure 1 none (some "b"))
unfolding ingest parse_lines trim_end ingest_items single_run check_seqs sort_by find_run
    verify_batch_chain
resent_again = refl

not_same : (a b : String) → str_eq a b ≡ false → a ≢ b
not_same a b h e = ground (arith, h, (str_eq_iff a b).1 e)

-- The line "e" carries the digest of the payload "p".
abbrev engine_items : List Item
engine_items = item (line_event "tool_call" 4 "p" (some "c")) "e" ∷ []

engine_parsed : parse_lines parse 0 ("e" ∷ []) ≡ ok engine_items
unfolding parse_lines trim_end
engine_parsed = refl

engine_line_refused_example : ingest parse digest "t1" no_rows ("e" ∷ []) ≢ ok outcome_1
engine_line_refused_example =
    engine_line_refused parse digest "t1" no_rows ("e" ∷ []) engine_items engine_parsed "p"
      (inl (refl, not_same "e" "p" refl)) outcome_1
