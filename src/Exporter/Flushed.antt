-- ===== src/Exporter/Flushed.antt =====
-- No span is lost and none is flushed twice.
use loopstorm_guard.Common.{
  ℕ, ◌+◌, ◌<◌, ◌≡◌, refl, inl, inr, String, Bool, true, false, none, some, List, [], ◌∷◌, leb,
  str_eq, str_eq_iff, length, arith, Bool-cases, Option-cases, ap,
}
use loopstorm_guard.Common.Dict.{get, delete_where, IsDistinct, get-set}
use loopstorm_guard.Common.Sums.{
  total, total-append, sum_of, sum_of-set_absent, sum_of-set_present, sum_of-delete,
}
use loopstorm_guard.Exporter.Span.{
  TraceEvent, Span, build_span, build_incomplete_root_span, finalize_root_span,
}
use loopstorm_guard.Exporter.Buffer.{
  max_concurrent_traces, BufferedTrace, Traces, new_trace, ensure_trace, spans_where,
  flush_timed_out, flush_all, add_to_trace, add_event, is_timed_out, incomplete_spans, collect,
  with_child, complete_spans, is_root_span_event,
}
use loopstorm_guard.Exporter.Buffered.{
  BufferCall, adds, flushes_timed_out, flushes_all, step, run, IsBounded, step-IsBounded,
  ensure_trace-IsBounded,
}

-- The weight of a span; the root of a trace weighs nothing.
module _ (w : Span → ℕ) where
  abbrev pub child_weight : Span → ℕ
  child_weight s = elim s.parent_seq [ none ↦ 0 | some seq ↦ w s ]

  abbrev held : BufferedTrace → ℕ
  held t = total child_weight t.child_spans

  -- What is still in the buffer.
  abbrev pub buffered : Traces → ℕ
  buffered m = sum_of held m

  abbrev pub flushed : List Span → ℕ
  flushed = total child_weight

  incomplete-weight : (t : BufferedTrace) → flushed (incomplete_spans t) ≡ held t
  unfolding total build_incomplete_root_span
  incomplete-weight t = elim (Option-cases t.root_span) [
    | inl e ↦ rw (e, incomplete_spans) refl
    | inr (root, e) ↦ rw (e, incomplete_spans, total) (omega arith)
  ]

  spans_where-weight :
      (p : BufferedTrace → Bool) (m : Traces)
      → flushed (spans_where p m) + buffered (delete_where p m) ≡ buffered m
  unfolding spans_where delete_where sum_of total
  spans_where-weight p [] = omega arith
  spans_where-weight p ((k, t) ∷ m) = elim (Bool-cases (p t)) [
    | inl e ↦
        rw (e, spans_where, delete_where, sum_of)
          (omega (
            arith,
            spans_where-weight p m,
            incomplete-weight t,
            total-append child_weight (incomplete_spans t) (spans_where p m),
          ))
    | inr e ↦ rw (e, spans_where, delete_where, sum_of) (omega (arith, spans_where-weight p m))
  ]

  ensure_trace-buffered :
      (run_id : String) (now : ℕ) (m : Traces)
      → length m < max_concurrent_traces
      → (buffered (ensure_trace run_id now m) ≡ buffered m)
        × ((t : BufferedTrace) × (get run_id (ensure_trace run_id now m) ≡ some t))
  unfolding ensure_trace total
  ensure_trace-buffered run_id now m free = elim (Option-cases (get run_id m)) [
    | inr (t, e) ↦ rw (ensure_trace, e) (refl, (t, e))
    | inl e ↦
        let room : leb max_concurrent_traces (length m) ≡ false = ground (arith, free) in
        rw (ensure_trace, e, room)
          (
            omega (arith, sum_of-set_absent held run_id (new_trace run_id now) m e),
            (
              new_trace run_id now,
              ground
                  (arith, get-set run_id run_id (new_trace run_id now) m, str_eq_iff run_id run_id),
            ),
          )
  ]

  module _ (time_of : String → ℕ) where
    abbrev built : TraceEvent → ℕ
    built e = child_weight (build_span time_of e [])

    built-start : (e : TraceEvent) → str_eq e.event_type "run_started" ≡ true → built e ≡ 0
    unfolding build_span
    built-start e k = rw (k, build_span) refl

    collect-child_spans :
        (e : TraceEvent) (t : BufferedTrace) → (collect time_of e t).child_spans ≡ t.child_spans
    collect-child_spans e t = elim (Bool-cases (is_root_span_event e.event_type)) [
      | inl k ↦ rw (collect, k) refl
      | inr k ↦ rw (collect, k) refl
    ]

    complete-weight :
        (e : TraceEvent) (t : BufferedTrace) → flushed (complete_spans time_of e t) ≡ held t
    unfolding total finalize_root_span
    complete-weight e t = elim (Option-cases t.root_span) [
      | inl k ↦ rw (k, complete_spans) refl
      | inr (root, k) ↦ rw (k, complete_spans, total) (omega arith)
    ]

    with_child-weight :
        (e : TraceEvent) (t : BufferedTrace) → held (with_child time_of e t) ≡ held t + built e
    unfolding total
    with_child-weight e t =
        omega (arith, total-append child_weight t.child_spans (build_span time_of e [] ∷ []))

    add_to_trace-weight :
        (e : TraceEvent) (t t' : BufferedTrace) (m : Traces)
        → get e.run_id m ≡ some t'
        → t.child_spans ≡ t'.child_spans
        → IsDistinct m
        → flushed (add_to_trace time_of e t m).1 + buffered (add_to_trace time_of e t m).0
          ≡ buffered m + built e
    unfolding add_to_trace total
    add_to_trace-weight e t t' m here same distinct =
        let held_same : held t ≡ held t' = ap (total child_weight) same in
        elim (Bool-cases (str_eq e.event_type "run_started")) [
          | inl k ↦
              rw (add_to_trace, k)
                (omega (
                  arith,
                  built-start e k,
                  sum_of-set_present held e.run_id
                      (record t { root_span = some (build_span time_of e []) }) t' m here,
                  held_same,
                ))
          | inr k ↦ elim (Bool-cases (str_eq e.event_type "run_ended")) [
            | inl o ↦
                rw (add_to_trace, k, o)
                  (omega (
                    arith,
                    sum_of-delete held e.run_id t' m distinct here,
                    complete-weight e (with_child time_of e t),
                    with_child-weight e t,
                    held_same,
                  ))
            | inr o ↦
                rw (add_to_trace, k, o)
                  (omega (
                    arith,
                    sum_of-set_present held e.run_id (with_child time_of e t) t' m here,
                    with_child-weight e t,
                    held_same,
                  ))
          ]
        ]

    -- The buffer is not full when an event comes.
    abbrev pub HasRoom : List BufferCall → Traces → Type 0
    HasRoom [] m = Unit
    HasRoom (adds e now ∷ cs) m =
        (length m < max_concurrent_traces) × HasRoom cs (step time_of (adds e now) m).0
    HasRoom (flushes_timed_out now timeout_ms ∷ cs) m =
        HasRoom cs (step time_of (flushes_timed_out now timeout_ms) m).0
    HasRoom (flushes_all ∷ cs) m = HasRoom cs (step time_of flushes_all m).0

    -- The weight of the spans of all events that have come.
    abbrev pub arrived : List BufferCall → ℕ
    arrived [] = 0
    arrived (adds e now ∷ cs) = child_weight (build_span time_of e []) + arrived cs
    arrived (flushes_timed_out now timeout_ms ∷ cs) = arrived cs
    arrived (flushes_all ∷ cs) = arrived cs

    add_event-weight :
        (e : TraceEvent) (now : ℕ) (m : Traces)
        → IsBounded m
        → length m < max_concurrent_traces
        → flushed (add_event time_of e now m).1 + buffered (add_event time_of e now m).0
          ≡ buffered m + built e
    unfolding add_event
    add_event-weight e now m h free =
        let (kept, (t, here)) = ensure_trace-buffered e.run_id now m free in
        rw (add_event, here)
          (omega (
            arith,
            kept,
            add_to_trace-weight e (collect time_of e t) t (ensure_trace e.run_id now m) here
                (collect-child_spans e t) (ensure_trace-IsBounded e.run_id now m h).1,
          ))

    run-weight :
        (cs : List BufferCall) (m : Traces)
        → IsBounded m
        → HasRoom cs m
        → flushed (run time_of cs m).1 + buffered (run time_of cs m).0 ≡ buffered m + arrived cs
    unfolding run step flush_timed_out flush_all total
    run-weight [] m h room = omega arith
    run-weight (adds e now ∷ cs) m h (free, room) =
        let answer = add_event time_of e now m in
        omega (
          arith,
          add_event-weight e now m h free,
          run-weight cs answer.0 (step-IsBounded time_of (adds e now) m h) room,
          total-append child_weight answer.1 (run time_of cs answer.0).1,
        )
    run-weight (flushes_timed_out now timeout_ms ∷ cs) m h room =
        let answer = flush_timed_out now timeout_ms m in
        omega (
          arith,
          spans_where-weight (is_timed_out now timeout_ms) m,
          run-weight cs answer.0 (step-IsBounded time_of (flushes_timed_out now timeout_ms) m h)
              room,
          total-append child_weight answer.1 (run time_of cs answer.0).1,
        )
    run-weight (flushes_all ∷ cs) m h room =
        let answer = flush_all m in
        omega (
          arith,
          spans_where-weight (λ t. true) m,
          run-weight cs answer.0 (step-IsBounded time_of flushes_all m h) room,
          total-append child_weight answer.1 (run time_of cs answer.0).1,
        )

-- In any history of an empty buffer that is never full when an event comes, each child span of the
-- events that have come is either still in the buffer or has been flushed, exactly once, whether its
-- run has ended, has timed out or has been flushed at the shutdown: for any weight of the spans, those
-- flushed and those in the buffer weigh together what those of all events weigh.
pub flushed-run :
    (w : Span → ℕ) (time_of : String → ℕ) (cs : List BufferCall)
    → HasRoom w time_of cs []
    → flushed w (run time_of cs []).1 + buffered w (run time_of cs []).0 ≡ arrived w time_of cs
unfolding sum_of
flushed-run w time_of cs room = omega (arith, run-weight w time_of cs [] (omega arith, tt) room)
