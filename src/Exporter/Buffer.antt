-- ===== src/Exporter/Buffer.antt =====
-- `TraceBuffer` of apps/otel-exporter/src/trace-buffer.ts. Times are milliseconds; the resource of a
-- trace is left out.
use loopstorm_guard.Common.{
  ℕ, ◌+◌, String, Bool, true, false, ◌||◌, Option, none, some, List, [], ◌∷◌, ◌++◌, ltb, leb,
  str_eq, if◌then◌else◌, length,
}
use loopstorm_guard.Common.Dict.{get, set, delete, delete_where}
use loopstorm_guard.Exporter.Span.{
  TraceEvent, TimedEvent, Span, build_span, build_root_span_event, finalize_root_span,
  build_incomplete_root_span,
}

abbrev pub max_concurrent_traces : ℕ
max_concurrent_traces = 1000

pub record BufferedTrace : Type 0 where
  pub run_id : String
  pub root_span : Option Span
  pub child_spans : List Span
  pub root_span_events : List TimedEvent
  pub first_event_time : ℕ
  pub completed : Bool

-- The map of the buffer.
abbrev pub Traces : Type 0
Traces = List (String × BufferedTrace)

abbrev pub new_trace : String → ℕ → BufferedTrace
new_trace run_id now = record {
  run_id = run_id;
  root_span = none;
  child_spans = [];
  root_span_events = [];
  first_event_time = now;
  completed = false;
}

-- The key and the time of the first trace that is older than all before it.
unfoldable pub oldest_from : Option (String × ℕ) → Traces → Option (String × ℕ)
oldest_from best [] = best
oldest_from none ((k, t) ∷ m) = oldest_from (some (k, t.first_event_time)) m
oldest_from (some (j, time)) ((k, t) ∷ m) =
    oldest_from
      (if ltb t.first_event_time time then some (k, t.first_event_time) else some (j, time)) m

unfoldable pub evict_oldest : Traces → Traces
unfolding oldest_from delete
evict_oldest m = elim (oldest_from none m) [ none ↦ m | some (k, time) ↦ delete k m ]

-- The buffer with a trace for the run.
unfoldable pub ensure_trace : String → ℕ → Traces → Traces
unfolding get set evict_oldest
ensure_trace run_id now m = elim (get run_id m) [
  | some t ↦ m
  | none ↦
      set run_id (new_trace run_id now)
        (if leb max_concurrent_traces (length m) then evict_oldest m else m)
]

abbrev pub is_root_span_event : String → Bool
is_root_span_event event_type =
    str_eq event_type "budget_soft_cap_warning"
    || (str_eq event_type "budget_exceeded" || str_eq event_type "loop_detected")

-- What is flushed of a trace that has not ended.
abbrev pub incomplete_spans : BufferedTrace → List Span
incomplete_spans t = elim t.root_span [
  | none ↦ t.child_spans
  | some root ↦ build_incomplete_root_span root t.root_span_events ∷ t.child_spans
]

unfoldable pub spans_where : (BufferedTrace → Bool) → Traces → List Span
spans_where p [] = []
spans_where p ((k, t) ∷ m) = (if p t then incomplete_spans t else []) ++ spans_where p m

abbrev pub is_timed_out : ℕ → ℕ → BufferedTrace → Bool
is_timed_out now timeout_ms t = leb (t.first_event_time + timeout_ms) now

unfoldable pub flush_timed_out : ℕ → ℕ → Traces → Traces × List Span
unfolding spans_where delete_where
flush_timed_out now timeout_ms m =
    (delete_where (is_timed_out now timeout_ms) m, spans_where (is_timed_out now timeout_ms) m)

unfoldable pub flush_all : Traces → Traces × List Span
unfolding spans_where delete_where
flush_all m = (delete_where (λ t. true) m, spans_where (λ t. true) m)

module _ (time_of : String → ℕ) where
  abbrev pub collect : TraceEvent → BufferedTrace → BufferedTrace
  collect e t =
      if is_root_span_event e.event_type
      then record t {
        root_span_events = t.root_span_events ++ build_root_span_event time_of e ∷ [];
      }
      else t

  abbrev pub with_child : TraceEvent → BufferedTrace → BufferedTrace
  with_child e t = record t { child_spans = t.child_spans ++ build_span time_of e [] ∷ [] }

  -- All spans of a trace that ends with the event.
  abbrev pub complete_spans : TraceEvent → BufferedTrace → List Span
  complete_spans e t = elim t.root_span [
    | none ↦ t.child_spans
    | some root ↦ finalize_root_span time_of root e t.root_span_events ∷ t.child_spans
  ]

  -- The event in the trace of its run.
  unfoldable pub add_to_trace : TraceEvent → BufferedTrace → Traces → Traces × List Span
  unfolding set delete
  add_to_trace e t m =
      if str_eq e.event_type "run_started"
      then (set e.run_id (record t { root_span = some (build_span time_of e []) }) m, [])
      else if str_eq e.event_type "run_ended"
      then (delete e.run_id m, complete_spans e (with_child e t))
      else (set e.run_id (with_child e t) m, [])

  unfoldable pub add_event : TraceEvent → ℕ → Traces → Traces × List Span
  unfolding ensure_trace get add_to_trace
  add_event e now m =
      let traces = ensure_trace e.run_id now m in
      elim (get e.run_id traces) [
        | none ↦ (traces, [])
        | some t ↦ add_to_trace e (collect e t) traces
      ]
