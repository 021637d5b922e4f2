-- ===== src/Queries/Verified.antt =====
-- `verify.chain` after `events.ingest`.
use loopstorm_guard.Common.{
  ℕ, suc, ◌≤◌, ◌<◌, ◌≡◌, refl, sym, ap, ◌∙◌, String, true, Option, none, some, List, [], ◌∷◌, ltb,
  length, filter, map, arith, Bool-cases, Option-cases, inl, inr, All, str_eq, str_eq_iff,
  length-append,
}
use loopstorm_guard.Common.Sort.{sort_by}
use loopstorm_guard.ChainVerify.{verify_chain, valid}
use loopstorm_guard.Paging.{ascending, order_by, IsAscending}
use loopstorm_guard.Paging.Sorting.{order_by_of_IsAscending, IsAscending-IsDistinct}
use loopstorm_guard.Ingest.Batch.{ParsedEvent, Item, ok, parse_lines, seq_of}
use loopstorm_guard.Ingest.Store.{EventRow, Db, RunRow, find_run}
use loopstorm_guard.Ingest.Handler.{Outcome, single_run, row_of, ingest}
use loopstorm_guard.Ingest.Chained.{chain_event, stored, IsChained, verify_chain-IsChained}
use loopstorm_guard.Ingest.Accepted.{IsStored, ingest-Extends}
use loopstorm_guard.Ingest.Recorded.{prev_seq, prev_count}
use loopstorm_guard.Ingest.Rejected.{filled}
use loopstorm_guard.Queries.{events_page_size, fetch_events, checked, response_of, verify_run}
use loopstorm_guard.Queries.Fetch.{seq_key, events_of, fetch_events_complete}

module _ (sha256 : String → String) where
  above :
      (s : ℕ) (prev : Option String) (seq : ℕ) (xs : List EventRow) (q : Option String) (t : ℕ)
      → s ≤ seq
      → IsChained sha256 prev seq xs q t
      → All (λ e. s < e.event.seq) xs
  above s prev seq [] q t le h = tt
  above s prev seq (x ∷ xs) q t le (a, b, c, d, h) =
      (omega arith, above s (some x.event.hash) x.event.seq xs q t (omega arith) h)

  chained-IsAscending :
      (prev : Option String) (seq : ℕ) (xs : List EventRow) (q : Option String) (t : ℕ)
      → IsChained sha256 prev seq xs q t
      → IsAscending ascending seq_key xs
  unfolding ascending
  chained-IsAscending prev seq [] q t h = tt
  chained-IsAscending prev seq (x ∷ xs) q t (a, b, c, d, h) = (
    tests x.event.seq xs (above x.event.seq (some x.event.hash) x.event.seq xs q t (omega arith) h),
    chained-IsAscending (some x.event.hash) x.event.seq xs q t h,
  )
    where
      tests :
          (s : ℕ) (ys : List EventRow)
          → All (λ e. s < e.event.seq) ys
          → All (λ e. ltb s e.event.seq ≡ true) ys
      tests s [] h = tt
      tests s (y ∷ ys) (lt, h) = (ground arith, tests s ys h)

length-map : {A B : Type 0} (f : A → B) (xs : List A) → length (map f xs) ≡ length xs
length-map f [] = refl
length-map f (x ∷ xs) = ap suc (length-map f xs)

events_of-owned :
    (run_id tenant_id : String) (events : List EventRow)
    → All (λ r. r.tenant_id ≡ tenant_id) (stored run_id events)
    → events_of run_id tenant_id events ≡ stored run_id events
events_of-owned run_id tenant_id [] h = refl
events_of-owned run_id tenant_id (e ∷ es) h = elim (Bool-cases (str_eq e.run_id run_id)) [
  | inr other ↦ rw (other, filter) (events_of-owned run_id tenant_id es (rw (other, filter) at h))
  | inl same ↦
      let (mine, rest) : (e.tenant_id ≡ tenant_id)
          × All (λ r. r.tenant_id ≡ tenant_id) (stored run_id es) =
        rw (same, filter) at h in
      let test : str_eq e.tenant_id tenant_id ≡ true = (str_eq_iff e.tenant_id tenant_id).1 mine in
      rw (same, test, filter) (ap (λ t. e ∷ t) (events_of-owned run_id tenant_id es rest))
]

response_of-filled :
    (sha256 : String → String) (xs : List EventRow)
    → 0 < length xs
    → response_of sha256 xs ≡ checked (verify_chain sha256 (map chain_event xs))
response_of-filled sha256 [] h = absurd (omega arith)
response_of-filled sha256 (x ∷ xs) h = refl

verify_run-fetched :
    (sha256 : String → String) (run_id tenant_id : String) (db : Db) (n : ℕ) (r : RunRow)
    (all : List EventRow)
    → find_run run_id tenant_id db.runs ≡ some r
    → fetch_events run_id tenant_id events_page_size n 0 db.events ≡ some all
    → verify_run sha256 n run_id tenant_id db ≡ some (response_of sha256 all)
unfolding verify_run
verify_run-fetched sha256 run_id tenant_id db n r all found fetched =
    rw (verify_run, found, fetched) refl

-- A run whose stored rows are in order.
verify_run-stored :
    (sha256 : String → String) (run_id tenant_id : String) (db : Db) (n : ℕ)
    → IsStored sha256 run_id tenant_id db
    → 0 < length (stored run_id db.events)
    → length (stored run_id db.events) < n
    → verify_run sha256 n run_id tenant_id db
      ≡ some (checked (valid (prev_count (find_run run_id tenant_id db.runs))))
verify_run-stored sha256 run_id tenant_id db n inv some_rows enough =
    let rows : List EventRow = stored run_id db.events in
    let mine : events_of run_id tenant_id db.events ≡ rows =
      events_of-owned run_id tenant_id db.events inv.owned in
    let sorted = chained-IsAscending sha256 none 0 rows _ _ inv.chained in
    let distinct = IsAscending-IsDistinct ascending seq_key rows sorted in
    let positive = above sha256 0 none 0 rows _ _ (omega arith) inv.chained in
    let fetched =
      fetch_events_complete run_id tenant_id events_page_size (omega arith) db.events
        (rw mine distinct) n 0 (rw mine enough) (rw mine positive)
      ∙ ap some (
          ap (order_by ascending seq_key) mine
          ∙ order_by_of_IsAscending ascending seq_key rows sorted) in
    elim (Option-cases (find_run run_id tenant_id db.runs)) [
      | inl e ↦ absurd (omega (arith, inv.counted, ap prev_count e))
      | inr (r, e) ↦
          verify_run-fetched sha256 run_id tenant_id db n r rows e fetched
          ∙ ap some (
              response_of-filled sha256 rows some_rows
              ∙ ap checked
                  (verify_chain-IsChained sha256 rows _ _ inv.chained ∙ ap valid (sym inv.counted)))
    ]

-- When the parser fails on the empty text, the stored rows of a run are in order, and a batch with
-- sequence numbers above the last one stored is accepted, then `verify.chain` reports the run as
-- intact after it, with as many events as the run's record counts, if its loop has more fuel than
-- there are stored events of the run.
pub ingest-verify_run :
    (parse_event_line : String → Option ParsedEvent) (sha256 : String → String)
    → parse_event_line "" ≡ none
    → (run_id tenant_id : String) (db : Db) (lines : List String) (items : List Item)
      (out : Outcome)
    → parse_lines parse_event_line 0 lines ≡ ok items
    → single_run items ≡ ok run_id
    → IsStored sha256 run_id tenant_id db
    → All (λ x. prev_seq (find_run run_id tenant_id db.runs) < seq_of x) items
    → ingest parse_event_line sha256 tenant_id db lines ≡ ok out
    → (n : ℕ) → length (stored run_id out.db.events) < n
    → verify_run sha256 n run_id tenant_id out.db
      ≡ some (checked (valid (prev_count (find_run run_id tenant_id out.db.runs))))
ingest-verify_run parse_event_line sha256 empty_fails run_id tenant_id db lines items out parsed one
      inv fresh h n enough =
    let e =
      ingest-Extends parse_event_line sha256 empty_fails run_id tenant_id db lines items out parsed
        one inv fresh h in
    let new_rows : List EventRow = map (row_of tenant_id) (sort_by seq_of items) in
    let filled_rows : 0 < length new_rows =
      rw (length-map (row_of tenant_id) (sort_by seq_of items)) (filled items run_id one) in
    let some_rows : 0 < length (stored run_id out.db.events) =
      rw e.extended (omega (arith, length-append (stored run_id db.events) new_rows)) in
    verify_run-stored sha256 run_id tenant_id out.db n e.is_stored some_rows enough
