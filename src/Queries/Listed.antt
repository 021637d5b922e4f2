-- ===== src/Queries/Listed.antt =====
-- The lists of runs and of events.
use loopstorm_guard.Common.{
  ℕ, ◌<◌, ◌≡◌, String, Option, none, some, List, map, length, filter, ◌&&◌,
}
use loopstorm_guard.Paging.{ascending, descending, order_by, IsDistinct, follow}
use loopstorm_guard.Paging.Complete.{follow-list_page}
use loopstorm_guard.Paging.Sound.{IsPage, list_page-IsPage}
use loopstorm_guard.Ingest.Store.{RunRow, Db, find_run}
use loopstorm_guard.Queries.{
  RunEntry, public_entry, is_listed, list_runs, has_type, is_event_of, get_events,
}

module _ (tenant_id : String) (status : Option String) (limit : ℕ) (table : List RunEntry) where
  -- A page of `runs.list` has at most `limit` entries, all of the tenant, with the status asked for,
  -- and created before the cursor.
  pub list_runs-IsPage :
      (cursor : Option ℕ)
      → IsPage descending
          (λ e. e.created_at)
          (is_listed tenant_id status)
          limit
          cursor
          (list_runs tenant_id status limit table cursor)
  unfolding list_runs
  list_runs-IsPage cursor =
      list_page-IsPage descending (λ e. e.created_at) (is_listed tenant_id status) limit cursor
        (map public_entry table)

  -- If the limit is not 0 and no two runs of the tenant with the status asked for have one
  -- creation time, then a client that may ask more often than there are such runs gets all of them
  -- by following the cursors of `runs.list`, each once, the latest first.
  pub list_runs-follow :
      (n : ℕ)
      → 0 < limit
      → IsDistinct descending
          (λ e. e.created_at)
          (filter (is_listed tenant_id status) (map public_entry table))
      → length (filter (is_listed tenant_id status) (map public_entry table)) < n
      → follow (list_runs tenant_id status limit table) n none
        ≡ order_by descending
            (λ e. e.created_at)
            (filter (is_listed tenant_id status) (map public_entry table))
  unfolding list_runs
  list_runs-follow n positive distinct enough =
      follow-list_page descending (λ e. e.created_at) limit positive (is_listed tenant_id status)
        (map public_entry table) n distinct enough

module _ (run_id tenant_id : String) (event_type : Option String) (limit : ℕ) (db : Db) where
  -- If the run is there, the limit is not 0, and no two events of the run and the type asked for
  -- have one `seq`, then a client that may ask more often than there are such events gets all of
  -- them by following the cursors of `runs.getEvents`, each once, in the order of `seq`.
  pub get_events-follow :
      (r : RunRow) (n : ℕ)
      → find_run run_id tenant_id db.runs ≡ some r
      → 0 < limit
      → IsDistinct ascending
          (λ e. e.event.seq)
          (filter (λ e. is_event_of run_id tenant_id e && has_type event_type e) db.events)
      → length (filter (λ e. is_event_of run_id tenant_id e && has_type event_type e) db.events) < n
      → follow (get_events run_id tenant_id event_type limit db) n none
        ≡ order_by ascending
            (λ e. e.event.seq)
            (filter (λ e. is_event_of run_id tenant_id e && has_type event_type e) db.events)
  unfolding get_events
  get_events-follow r n found positive distinct enough =
      rw (get_events, found)
        (follow-list_page ascending (λ e. e.event.seq) limit positive
          (λ e. is_event_of run_id tenant_id e && has_type event_type e) db.events n distinct
          enough)
