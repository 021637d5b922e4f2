-- ===== src/Ingest/Accepted.antt =====
-- An accepted batch extends the stored chain of its run.
use loopstorm_guard.Common.Sort.{sort_by, All-sort_by}
use loopstorm_guard.ChainVerify.{verify_chain, valid}
use loopstorm_guard.Common.{
  ◌<◌, ◌≡◌, refl, ap, ◌∙◌, String, Option, none, List, [], ◌∷◌, ◌++◌, map, arith, All, All-append,
  any, str_eq, length, length-append, is_some, sym,
}
use loopstorm_guard.Ingest.Batch.{
  ParsedEvent, Item, ok, ◌>>=◌, parse_lines, seq_of, check_seqs, verify_batch_chain,
}
use loopstorm_guard.Ingest.Store.{RunRow, EventRow, Db, find_run}
use loopstorm_guard.Ingest.Lookup.{insert_events_above, stored-append, stored_same, single_run-All}
use loopstorm_guard.Ingest.Handler.{
  ingest, ingest_items, single_run, check_tenant, store_batch, batch_outcome, Outcome,
  prev_run_hash, row_of,
}
use loopstorm_guard.Ingest.Chained.{
  chain_event, verify_chain-IsChained, stored, IsChained, IsChained-append, IsBelow-stored,
}
use loopstorm_guard.Ingest.Checked.{
  >>=-ok, HasLine, parse_lines-HasLine, rows, end_hash, end_seq, batch-IsChained,
}
use loopstorm_guard.Ingest.Recorded.{
  prev_seq, prev_count, end_hash-last, end_seq-last, length-rows, owned-rows, ids-rows, run_after,
}

-- The stored rows of the run lead to the hash and the sequence number of its record, they are the
-- tenant's, and there are as many as the record counts; the run id belongs to no other tenant.
pub record IsStored (sha256 : String → String) (run_id tenant_id : String) (db : Db) : Type 0 where
  pub known :
      any (λ x. str_eq x.run_id run_id) db.runs ≡ is_some (find_run run_id tenant_id db.runs)
  pub chained :
      IsChained sha256 none 0
        (stored run_id db.events)
        (prev_run_hash (find_run run_id tenant_id db.runs))
        (prev_seq (find_run run_id tenant_id db.runs))
  pub owned : All (λ r. r.tenant_id ≡ tenant_id) (stored run_id db.events)
  pub counted : prev_count (find_run run_id tenant_id db.runs) ≡ length (stored run_id db.events)

-- What an accepted batch does: the run's rows are extended by the rows of the items, all of which
-- are inserted, and the stored rows are in order again.
pub record Extends (sha256 : String → String) (run_id tenant_id : String) (db : Db)
    (items : List Item) (out : Outcome) : Type 0 where
  pub is_stored : IsStored sha256 run_id tenant_id out.db
  pub extended :
      stored run_id out.db.events ≡ stored run_id db.events ++ map (row_of tenant_id) items
  pub inserted : out.response.inserted ≡ length items
  pub skipped : out.response.skipped ≡ 0

module _ (sha256 : String → String) (run_id tenant_id : String) (db : Db)
    (inv : IsStored sha256 run_id tenant_id db) (x : Item) (xs : List Item)
    (ids : All (λ y. y.event.run_id ≡ run_id) (x ∷ xs)) (seqs : check_seqs (x ∷ xs) ≡ ok tt)
    (chain : verify_batch_chain sha256 (x ∷ xs) (prev_run_hash (find_run run_id tenant_id db.runs))
      ≡ ok tt)
    (lines : All HasLine (x ∷ xs))
    (fresh : prev_seq (find_run run_id tenant_id db.runs) < seq_of x) where
  batch_outcome-Extends :
      Extends sha256 run_id tenant_id db
        (x ∷ xs)
        (batch_outcome run_id tenant_id db (find_run run_id tenant_id db.runs) x xs)
  unfolding batch_outcome
  batch_outcome-Extends =
      let existing : Option RunRow = find_run run_id tenant_id db.runs in
      let new_rows : List EventRow = rows tenant_id (x ∷ xs) in
      let row_ids = ids-rows run_id tenant_id (x ∷ xs) ids in
      let links =
        batch-IsChained sha256 tenant_id (prev_run_hash existing) (prev_seq existing) x xs seqs
          chain lines fresh in
      let below =
        IsBelow-stored sha256 run_id none 0 db.events (prev_run_hash existing) (prev_seq existing)
          inv.chained in
      let put =
        insert_events_above sha256 run_id (prev_run_hash existing) (prev_seq existing) new_rows
          db.events (end_hash (prev_run_hash existing) (x ∷ xs))
          (end_seq (prev_seq existing) (x ∷ xs)) row_ids links below in
      let grown : stored run_id (db.events ++ new_rows) ≡ stored run_id db.events ++ new_rows =
        stored-append run_id db.events new_rows
        ∙ ap (λ t. stored run_id db.events ++ t) (stored_same run_id new_rows row_ids) in
      let (r, found, there, hash, seq, count) =
        run_after run_id tenant_id x xs db.runs existing ids.0 refl inv.known in
      let joined =
        IsChained-append sha256 none 0 (stored run_id db.events) new_rows (prev_run_hash existing)
          (end_hash (prev_run_hash existing) (x ∷ xs)) (prev_seq existing)
          (end_seq (prev_seq existing) (x ∷ xs)) inv.chained links in
      rw put (record {
        is_stored = record {
          known = rw found there;
          chained =
              rw
                (
                  found,
                  hash,
                  seq,
                  grown,
                  ← end_hash-last (prev_run_hash existing) x xs,
                  ← end_seq-last (prev_seq existing) x xs,
                )
                joined;
          owned = rw grown (
              All-append (λ e. e.tenant_id ≡ tenant_id) (stored run_id db.events) new_rows inv.owned
                (owned-rows tenant_id (x ∷ xs)));
          counted =
              rw (found, grown, length-append)
                (omega (arith, count, inv.counted, length-rows tenant_id (x ∷ xs)));
        };
        extended = grown;
        inserted = length-rows tenant_id (x ∷ xs);
        skipped = omega (arith, length-rows tenant_id (x ∷ xs));
      })

module _ (parse_event_line : String → Option ParsedEvent) (sha256 : String → String)
    (empty_fails : parse_event_line "" ≡ none) (run_id tenant_id : String) (db : Db) where
  ingest_items-Extends :
      (items : List Item) (out : Outcome)
      → All HasLine items
      → single_run items ≡ ok run_id
      → IsStored sha256 run_id tenant_id db
      → All (λ x. prev_seq (find_run run_id tenant_id db.runs) < seq_of x) items
      → ingest_items parse_event_line sha256 tenant_id db items ≡ ok out
      → Extends sha256 run_id tenant_id db (sort_by seq_of items) out
  unfolding ingest_items store_batch
  ingest_items-Extends items out lines one inv fresh h =
      let existing : Option RunRow = find_run run_id tenant_id db.runs in
      let h1 = rw (one, ◌>>=◌) at h in
      let (_, seqs, h2) = >>=-ok (check_seqs (sort_by seq_of items)) _ h1 in
      let (_, _, h3) = >>=-ok (check_tenant tenant_id existing) _ h2 in
      let (_, chain, h4) =
        >>=-ok (verify_batch_chain sha256 (sort_by seq_of items) (prev_run_hash existing)) _ h3 in
      finish (sort_by seq_of items) seqs chain h4
        (All-sort_by seq_of (λ y. y.event.run_id ≡ run_id) items (single_run-All items run_id one))
        (All-sort_by seq_of HasLine items lines)
        (All-sort_by seq_of (λ x. prev_seq existing < seq_of x) items fresh)
    where
      finish :
          (xs : List Item)
          → check_seqs xs ≡ ok tt
          → verify_batch_chain sha256 xs (prev_run_hash (find_run run_id tenant_id db.runs)) ≡ ok tt
          → store_batch run_id tenant_id db (find_run run_id tenant_id db.runs) xs ≡ ok out
          → All (λ y. y.event.run_id ≡ run_id) xs
          → All HasLine xs
          → All (λ x. prev_seq (find_run run_id tenant_id db.runs) < seq_of x) xs
          → Extends sha256 run_id tenant_id db xs out
      finish [] seqs chain e ids ls fr = absurd (ground arith)
      finish (x ∷ xs) seqs chain e ids ls fr =
          let same : batch_outcome run_id tenant_id db (find_run run_id tenant_id db.runs) x xs
              ≡ out =
            ground arith in
          rw (← same)
            (batch_outcome-Extends sha256 run_id tenant_id db inv x xs ids seqs chain ls fr.0)

  -- If the parser fails on the empty text, the stored rows of the run are in order, and the
  -- sequence numbers of the batch are all above the last one stored, then an accepted batch
  -- extends them: every item is inserted, none is skipped, the rows of the run are the old ones
  -- followed by the batch in the order of `seq`, and the stored rows are in order again.
  pub ingest-Extends :
      (lines : List String) (items : List Item) (out : Outcome)
      → parse_lines parse_event_line 0 lines ≡ ok items
      → single_run items ≡ ok run_id
      → IsStored sha256 run_id tenant_id db
      → All (λ x. prev_seq (find_run run_id tenant_id db.runs) < seq_of x) items
      → ingest parse_event_line sha256 tenant_id db lines ≡ ok out
      → Extends sha256 run_id tenant_id db (sort_by seq_of items) out
  unfolding ingest
  ingest-Extends lines items out parsed one inv fresh h =
      ingest_items-Extends items out
        (parse_lines-HasLine parse_event_line empty_fails 0 lines items parsed) one inv fresh
        (rw (parsed, ◌>>=◌) at h)

  -- If the parser fails on the empty text, the stored rows of the run are in order, and the
  -- sequence numbers of an accepted batch are all above the last one stored, then the chain
  -- verifier accepts the rows of the run after the batch, and counts as many events as the run's
  -- record does.
  pub ingest-verify_chain :
      (lines : List String) (items : List Item) (out : Outcome)
      → parse_lines parse_event_line 0 lines ≡ ok items
      → single_run items ≡ ok run_id
      → IsStored sha256 run_id tenant_id db
      → All (λ x. prev_seq (find_run run_id tenant_id db.runs) < seq_of x) items
      → ingest parse_event_line sha256 tenant_id db lines ≡ ok out
      → verify_chain sha256 (map chain_event (stored run_id out.db.events))
        ≡ valid (prev_count (find_run run_id tenant_id out.db.runs))
  ingest-verify_chain lines items out parsed one inv fresh h =
      let e = ingest-Extends lines items out parsed one inv fresh h in
      verify_chain-IsChained sha256 (stored run_id out.db.events) _ _ e.is_stored.chained
      ∙ ap valid (sym e.is_stored.counted)
