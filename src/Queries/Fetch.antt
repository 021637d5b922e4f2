-- ===== src/Queries/Fetch.antt =====
-- The loop of `verify.chain` fetches every event of the run.
use loopstorm_guard.Common.{
  ℕ, zero, suc, ◌≤◌, ◌<◌, ◌≡◌, refl, sym, ap, ◌∙◌, String, true, false, some, List, [], ◌∷◌, ◌++◌,
  ltb, if◌then◌else◌, length, take, drop, filter, get_last?, arith, Bool-cases, inl, inr,
  append_assoc, length-take, All,
}
use loopstorm_guard.Paging.{ascending, order_by, IsAscending, IsDistinct}
use loopstorm_guard.Paging.Sorting.{
  filter-order_by, filter-rest, order_by-IsAscending, length-order_by, All-order_by,
}
use loopstorm_guard.Paging.Complete.{
  take-drop, take-all, get_last?-take, get_last?-append, length-drop_lt, filter-filter,
}
use loopstorm_guard.Ingest.Store.{EventRow}
use loopstorm_guard.Queries.{is_event_of, fetch_page, fetch_events, last_seq_of}

abbrev pub seq_key : EventRow → ℕ
seq_key e = e.event.seq

-- The events of the run.
abbrev pub events_of : String → String → List EventRow → List EventRow
events_of run_id tenant_id = filter (λ e. is_event_of run_id tenant_id e)

filter-above :
    (c : ℕ) (xs : List EventRow)
    → All (λ e. c < e.event.seq) xs
    → filter (λ e. ltb c e.event.seq) xs ≡ xs
filter-above c [] h = refl
filter-above c (x ∷ xs) (lt, h) =
    let test : ltb c x.event.seq ≡ true = ground arith in
    rw (test, filter) (ap (λ t. x ∷ t) (filter-above c xs h))

module _ (run_id tenant_id : String) (size : ℕ) (positive : 0 < size) (events : List EventRow)
    (distinct : IsDistinct ascending seq_key (events_of run_id tenant_id events)) where
  abbrev all_events : List EventRow
  all_events = order_by ascending seq_key (events_of run_id tenant_id events)

  fetch_page-filter :
      (c : ℕ)
      → fetch_page run_id tenant_id size c events
        ≡ take size (filter (λ e. ltb c e.event.seq) all_events)
  unfolding fetch_page
  fetch_page-filter c = ap (take size) (
      ap (order_by ascending seq_key)
        (filter-filter (is_event_of run_id tenant_id) (λ e. ltb c e.event.seq) events)
      ∙ filter-order_by ascending seq_key (λ e. ltb c e.event.seq)
          (events_of run_id tenant_id events) distinct)

  fetch-end :
      (n c : ℕ) (xs : List EventRow)
      → fetch_page run_id tenant_id size c events ≡ xs
      → length xs < size
      → fetch_events run_id tenant_id size (suc n) c events ≡ some xs
  unfolding fetch_events
  fetch-end n c xs e short =
      let test : ltb (length xs) size ≡ true = ground arith in rw (e, test) refl

  fetch-more :
      (n c : ℕ) (xs later : List EventRow) (l : EventRow)
      → fetch_page run_id tenant_id size c events ≡ xs
      → size ≤ length xs
      → get_last? xs ≡ some l
      → fetch_events run_id tenant_id size n l.event.seq events ≡ some later
      → fetch_events run_id tenant_id size (suc n) c events ≡ some (xs ++ later)
  unfolding fetch_events
  fetch-more n c xs later l e full last rest =
      let test : ltb (length xs) size ≡ false = ground arith in
      rw (e, test, if◌then◌else◌, last_seq_of, last, rest, e) refl

  -- The events that are left when the events `xs` have been fetched.
  fetch-rest :
      (xs ys : List EventRow) (n c : ℕ)
      → all_events ≡ xs ++ ys
      → filter (λ e. ltb c e.event.seq) all_events ≡ ys
      → length ys < n
      → fetch_events run_id tenant_id size n c events ≡ some ys
  unfolding ascending
  fetch-rest xs ys zero c parts left enough = absurd (omega arith)
  fetch-rest xs ys (suc n) c parts left enough =
      let page = fetch_page-filter c ∙ ap (take size) left in
      elim (Bool-cases (ltb (length ys) size)) [
        | inl e ↦
            let short : length ys < size = ground arith in
            fetch-end n c ys (page ∙ take-all size ys (omega arith)) short
        | inr e ↦
            let long : size ≤ length ys = ground arith in
            let (l, last) = get_last?-take size ys positive (omega arith) in
            let given : List EventRow = xs ++ take size ys in
            let whole : all_events ≡ given ++ drop size ys =
              parts
              ∙ (ap (λ t. xs ++ t) (sym (take-drop size ys))
                  ∙ sym (append_assoc xs (take size ys) (drop size ys))) in
            let sorted : IsAscending ascending seq_key (given ++ drop size ys) = rw whole at (
              order_by-IsAscending ascending seq_key (events_of run_id tenant_id events)
                distinct) in
            let left' : filter (λ e. ltb l.event.seq e.event.seq) all_events ≡ drop size ys =
              rw whole (
                filter-rest ascending seq_key given (drop size ys) l sorted
                  (get_last?-append xs (take size ys) l last)) in
            let full : size ≤ length (take size ys) = omega (arith, length-take size ys) in
            fetch-more n c (take size ys) (drop size ys) l page full last (
              fetch-rest given (drop size ys) n l.event.seq whole left'
                (omega (arith, length-drop_lt size ys positive long)))
            ∙ ap some (take-drop size ys)
      ]

  -- If no two events of the run have one `seq`, all have a `seq` above `c`, and the page size is
  -- not 0, then with more fuel than the run has events the loop ends, and fetches all of these
  -- events, each once, in the order of `seq`.
  pub fetch_events_complete :
      (n c : ℕ)
      → length (events_of run_id tenant_id events) < n
      → All (λ e. c < e.event.seq) (events_of run_id tenant_id events)
      → fetch_events run_id tenant_id size n c events ≡ some all_events
  fetch_events_complete n c enough above =
      fetch-rest [] all_events n c refl
        (filter-above c all_events (
          All-order_by ascending seq_key (λ e. c < e.event.seq) (events_of run_id tenant_id events)
            above))
        (omega (arith, length-order_by ascending seq_key (events_of run_id tenant_id events)))
