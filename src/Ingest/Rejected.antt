-- ===== src/Ingest/Rejected.antt =====
-- Batches that the handler turns down.
use loopstorm_guard.Common.{
  ℕ, ◌≡◌, ◌≢◌, ◌<◌, sym, ◌∙◌, String, Option, none, some, List, [], ◌∷◌, ◌++◌, map, arith, All, Any,
  All-Any, str_eq_iff, opt_str_eq_iff, inl, inr, length,
}
use loopstorm_guard.Common.Sort.{sort_by, Any-sort_by, length-sort_by}
use loopstorm_guard.Ingest.Batch.{
  ParsedEvent, Item, ok, ◌>>=◌, parse_lines, seq_of, check_seqs, verify_batch_chain,
}
use loopstorm_guard.Ingest.Store.{EventRow, Db, find_run}
use loopstorm_guard.Ingest.Handler.{
  Outcome, single_run, prev_run_hash, check_tenant, row_of, ingest_items, ingest,
}
use loopstorm_guard.Ingest.Chained.{stored, IsChained}
use loopstorm_guard.Ingest.Accepted.{IsStored, ingest-Extends}
use loopstorm_guard.Ingest.Recorded.{prev_seq}
use loopstorm_guard.Ingest.Checked.{>>=-ok}

module _ (sha256 : String → String) where
  authentic_items :
      (xs : List Item) (prev : Option String)
      → verify_batch_chain sha256 xs prev ≡ ok tt
      → All (λ x. sha256 x.raw_line ≡ x.event.hash) xs
  unfolding verify_batch_chain
  authentic_items [] prev h = tt
  authentic_items (x ∷ xs) prev h =
      let later : verify_batch_chain sha256 xs (some x.event.hash) ≡ ok tt = ground arith in
      (
        ground (arith, str_eq_iff (sha256 x.raw_line) x.event.hash),
        authentic_items xs (some x.event.hash) later,
      )

  end-ne-none :
      (prev : Option String) (seq : ℕ) (r : EventRow) (rs : List EventRow) (q : Option String)
      (t : ℕ)
      → IsChained sha256 prev seq (r ∷ rs) q t
      → q ≢ none
  end-ne-none prev seq r [] q t h = λ e. cc (h.4.0 ∙ e)
  end-ne-none prev seq r (s ∷ rs) q t h = end-ne-none (some r.event.hash) r.event.seq s rs q t h.4

  first_link :
      (x : Item) (xs : List Item) (prev : Option String)
      → verify_batch_chain sha256 (x ∷ xs) prev ≡ ok tt
      → x.event.hash_prev ≡ prev
  unfolding verify_batch_chain
  first_link x xs prev h = ground (arith, opt_str_eq_iff x.event.hash_prev prev)

  end-append :
      (prev : Option String) (seq : ℕ) (old : List EventRow) (r : EventRow) (rs : List EventRow)
      (q : Option String) (t : ℕ)
      → IsChained sha256 prev seq (old ++ r ∷ rs) q t
      → q ≢ none
  end-append prev seq [] r rs q t h = end-ne-none prev seq r rs q t h
  end-append prev seq (o ∷ old) r rs q t h =
      end-append (some o.event.hash) o.event.seq old r rs q t h.4

  -- One batch does not link both to nothing and to the stored hash that it has led to.
  conflict :
      (tenant_id : String) (old : List EventRow) (xs : List Item) (q : Option String) (t : ℕ)
      → 0 < length xs
      → IsChained sha256 none 0 (old ++ map (row_of tenant_id) xs) q t
      → verify_batch_chain sha256 xs none ≡ ok tt
      → verify_batch_chain sha256 xs q ≢ ok tt
  conflict tenant_id old [] q t pos h v v' = omega arith
  conflict tenant_id old (x ∷ xs) q t pos h v v' =
      end-append none 0 old (row_of tenant_id x) (map (row_of tenant_id) xs) q t h
        (sym (first_link x xs q v') ∙ first_link x xs none v)

pub filled :
    (items : List Item) (run_id : String)
    → single_run items ≡ ok run_id
    → 0 < length (sort_by seq_of items)
unfolding single_run
filled [] run_id h = absurd (ground arith)
filled (x ∷ xs) run_id h = rw (length-sort_by seq_of (x ∷ xs)) (omega arith)

module _ (parse_event_line : String → Option ParsedEvent) (sha256 : String → String)
    (tenant_id : String) (db : Db) (lines : List String) (items : List Item)
    (parsed : parse_lines parse_event_line 0 lines ≡ ok items) where
  -- The chain test that an accepted batch has passed.
  passed :
      (out : Outcome)
      → ingest parse_event_line sha256 tenant_id db lines ≡ ok out
      → (run_id : String) × (single_run items ≡ ok run_id)
        × (verify_batch_chain sha256
              (sort_by seq_of items)
              (prev_run_hash (find_run run_id tenant_id db.runs))
            ≡ ok tt)
  unfolding ingest ingest_items
  passed out h =
      let h0 : ingest_items parse_event_line sha256 tenant_id db items ≡ ok out =
        rw (parsed, ◌>>=◌) at h in
      let (run_id, one, h1) = >>=-ok (single_run items) _ h0 in
      let (_, _, h2) = >>=-ok (check_seqs (sort_by seq_of items)) _ h1 in
      let (_, _, h3) = >>=-ok (check_tenant tenant_id (find_run run_id tenant_id db.runs)) _ h2 in
      let (_, chain, _) =
        >>=-ok
          (verify_batch_chain sha256 (sort_by seq_of items)
            (prev_run_hash (find_run run_id tenant_id db.runs)))
          _ h3 in
      (run_id, one, chain)

  -- No batch is accepted that holds a line whose SHA-256 is not the `hash` member of that same
  -- line.
  pub ingest_unauthentic :
      Any (λ x. sha256 x.raw_line ≢ x.event.hash) items
      → (out : Outcome) → ingest parse_event_line sha256 tenant_id db lines ≢ ok out
  ingest_unauthentic bad out h =
      let (run_id, one, chain) = passed out h in
      let (x, good, differ) =
        All-Any (λ x. sha256 x.raw_line ≡ x.event.hash) (λ x. sha256 x.raw_line ≢ x.event.hash)
          (sort_by seq_of items) (authentic_items sha256 (sort_by seq_of items) _ chain)
          ((Any-sort_by seq_of (λ x. sha256 x.raw_line ≢ x.event.hash) items).1 bad) in
      differ good

-- No batch is accepted that holds a line whose `hash` is the SHA-256 of a payload, as the engine
-- computes it, when the SHA-256 of the line is another one than that of the payload.
pub engine_line_refused :
    (parse_event_line : String → Option ParsedEvent) (sha256 : String → String) (tenant_id : String)
    (db : Db) (lines : List String) (items : List Item)
    → parse_lines parse_event_line 0 lines ≡ ok items
    → (payload : String)
    → Any (λ x. (x.event.hash ≡ sha256 payload) × (sha256 x.raw_line ≢ sha256 payload)) items
    → (out : Outcome) → ingest parse_event_line sha256 tenant_id db lines ≢ ok out
engine_line_refused parse_event_line sha256 tenant_id db lines items parsed payload bad =
    ingest_unauthentic parse_event_line sha256 tenant_id db lines items parsed (convert items bad)
  where
    convert :
        (xs : List Item)
        → Any (λ x. (x.event.hash ≡ sha256 payload) × (sha256 x.raw_line ≢ sha256 payload)) xs
        → Any (λ x. sha256 x.raw_line ≢ x.event.hash) xs
    convert [] h = absurd h
    convert (x ∷ xs) (inl (e, d)) = inl (λ p. d (p ∙ e))
    convert (x ∷ xs) (inr h) = inr (convert xs h)

-- If the parser fails on the empty text, the stored rows of the run are in order, the run has no
-- record yet, and all sequence numbers of the batch are above 0, then the batch, once accepted, is
-- refused when it is sent again.
pub resent_refused :
    (parse_event_line : String → Option ParsedEvent) (sha256 : String → String)
    → parse_event_line "" ≡ none
    → (run_id tenant_id : String) (db : Db) (lines : List String) (items : List Item)
    → parse_lines parse_event_line 0 lines ≡ ok items
    → single_run items ≡ ok run_id
    → IsStored sha256 run_id tenant_id db
    → find_run run_id tenant_id db.runs ≡ none
    → All (λ x. 0 < seq_of x) items
    → (out : Outcome) → ingest parse_event_line sha256 tenant_id db lines ≡ ok out
    → (again : Outcome) → ingest parse_event_line sha256 tenant_id out.db lines ≢ ok again
resent_refused parse_event_line sha256 empty_fails run_id tenant_id db lines items parsed one inv
      new fresh out h again h' =
    let (id1, one1, chain1) =
      passed parse_event_line sha256 tenant_id db lines items parsed out h in
    let (id2, one2, chain2) =
      passed parse_event_line sha256 tenant_id out.db lines items parsed again h' in
    let same1 : id1 ≡ run_id = ground arith in
    let same2 : id2 ≡ run_id = ground arith in
    let ext =
      ingest-Extends parse_event_line sha256 empty_fails run_id tenant_id db lines items out parsed
        one inv (rw new fresh) h in
    let there = rw ext.extended at ext.is_stored.chained in
    conflict sha256 tenant_id (stored run_id db.events) (sort_by seq_of items)
      (prev_run_hash (find_run run_id tenant_id out.db.runs))
      (prev_seq (find_run run_id tenant_id out.db.runs)) (filled items run_id one) there
      (rw (same1, new) at chain1) (rw same2 at chain2)
