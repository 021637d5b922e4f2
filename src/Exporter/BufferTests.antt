-- ===== src/Exporter/BufferTests.antt =====
-- A run that ends and one that times out.
use loopstorm_guard.Common.{
  ℕ, ◌+◌, ◌≡◌, refl, String, none, some, List, [], ◌∷◌, map, length, arith,
}
use loopstorm_guard.Common.Dict.{get, set, delete, delete_where}
use loopstorm_guard.Exporter.Span.{
  TraceEvent, Span, build_span, build_root_span_event, finalize_root_span,
}
use loopstorm_guard.Exporter.Buffer.{
  add_event, add_to_trace, ensure_trace, flush_timed_out, spans_where,
}
use loopstorm_guard.Exporter.Buffered.{
  BufferCall, adds, flushes_timed_out, step, run, IsBounded, run-IsBounded,
}
use loopstorm_guard.Exporter.Flushed.{buffered, flushed, arrived, flushed-run}

abbrev event : String → String → ℕ → TraceEvent
event event_type run_id seq = record {
  event_type = event_type;
  run_id = run_id;
  seq = seq;
  ts = "t";
  decision = none;
  reason = none;
  run_status = some "completed";
  latency_ms = none;
  trigger_run_id = none;
}

abbrev noon : String → ℕ
noon ts = 43200500

abbrev history : List BufferCall
history =
    adds (event "run_started" "a" 1) 10
    ∷ adds (event "policy_decision" "b" 2) 20
    ∷ adds (event "loop_detected" "a" 2) 30
    ∷ adds (event "run_ended" "a" 3) 40
    ∷ flushes_timed_out 80 60
    ∷ adds (event "policy_decision" "c" 1) 90
    ∷ []

-- The run, the sequence number and the number of events of a span.
abbrev summary : Span → String × ℕ × ℕ
summary s = (s.run_id, s.seq, length s.events)

history_flushed :
    map summary (run noon history []).1 ≡ ("a", 0, 1) ∷ ("a", 2, 0) ∷ ("a", 3, 0) ∷ ("b", 2, 0) ∷ []
unfolding run step add_event ensure_trace add_to_trace flush_timed_out spans_where delete_where get
    set delete build_span build_root_span_event finalize_root_span
history_flushed = refl

run-IsBounded_example : IsBounded (run noon history []).0
run-IsBounded_example = run-IsBounded noon history [] (omega arith, tt)

flushed-run_example :
    flushed (λ s. s.seq) (run noon history []).1 + buffered (λ s. s.seq) (run noon history []).0
    ≡ arrived (λ s. s.seq) noon history
unfolding step add_event ensure_trace add_to_trace flush_timed_out delete_where get set delete
flushed-run_example =
    flushed-run (λ s. s.seq) noon history
      (omega arith, (omega arith, (omega arith, (omega arith, (omega arith, tt)))))
