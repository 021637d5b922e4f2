-- ===== src/Queries/Tests.antt =====
-- The reads at a small database.
use loopstorm_guard.Common.{ℕ, ◌≡◌, refl, String, none, some, List, [], ◌∷◌, map, filter, arith}
use loopstorm_guard.ChainVerify.{valid}
use loopstorm_guard.Paging.{Page, ascending, descending, order_by, IsDistinct, follow}
use loopstorm_guard.Ingest.Store.{find_run}
use loopstorm_guard.Ingest.Recorded.{prev_count}
use loopstorm_guard.Ingest.Tests.{
  digest, parse, parse_empty, db_1, run_1, run_2, last_items, outcome_2, last_parsed, last_run,
  db_1-IsStored, last_fresh, last_batch,
}
use loopstorm_guard.Queries.{
  RunEntry, public_entry, is_listed, list_runs, fetch_events, checked, verify_run,
}
use loopstorm_guard.Queries.Fetch.{events_of, seq_key, fetch_events_complete}
use loopstorm_guard.Queries.Verified.{ingest-verify_run}
use loopstorm_guard.Queries.Listed.{list_runs-follow}

ingest-verify_run_example :
    verify_run digest 4 "r" "t1" outcome_2.db
    ≡ some (checked (valid (prev_count (find_run "r" "t1" outcome_2.db.runs))))
ingest-verify_run_example =
    ingest-verify_run parse digest parse_empty "r" "t1" db_1 ("c" ∷ []) last_items outcome_2
      last_parsed last_run db_1-IsStored last_fresh last_batch 4 (omega arith)

-- Pages of two out of three events.
three-IsDistinct : IsDistinct ascending seq_key (events_of "r" "t1" outcome_2.db.events)
three-IsDistinct = ((omega arith, (omega arith, tt)), ((omega arith, tt), (tt, tt)))

fetch_events_complete_example :
    fetch_events "r" "t1" 2 4 0 outcome_2.db.events
    ≡ some (order_by ascending seq_key (events_of "r" "t1" outcome_2.db.events))
fetch_events_complete_example =
    fetch_events_complete "r" "t1" 2 (omega arith) outcome_2.db.events three-IsDistinct 4 0
      (omega arith) (omega arith, (omega arith, (omega arith, tt)))

abbrev entry : String → ℕ → RunEntry
entry run_id created_at = record { row = record run_1 { run_id = run_id }; created_at = created_at }

abbrev table : List RunEntry
table = entry "r1" 5 ∷ entry "r2" 9 ∷ entry "r3" 7 ∷ []

list_test :
    follow (list_runs "t1" none 2 table) 4 none
    ≡ map public_entry (entry "r2" 9 ∷ entry "r3" 7 ∷ entry "r1" 5 ∷ [])
unfolding follow list_runs loopstorm_guard.Paging.list_page loopstorm_guard.Paging.page_of
    descending
list_test = refl

list_runs-follow_example :
    follow (list_runs "t1" none 2 table) 4 none
    ≡ order_by descending
        (λ e. e.created_at)
        (filter (is_listed "t1" none) (map public_entry table))
list_runs-follow_example =
    list_runs-follow "t1" none 2 table 4 (omega arith)
      ((omega arith, (omega arith, tt)), ((omega arith, tt), (tt, tt))) (omega arith)

found_r : find_run "r" "t1" outcome_2.db.runs ≡ some run_2
unfolding find_run
found_r = refl
