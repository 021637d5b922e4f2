-- ===== src/Exporter/Span.antt =====
-- The spans of apps/otel-exporter/src/span-builder.ts. A span keeps the run and the sequence number
-- that ids.ts computes its ids from; the time of a text, `new Date(ts).getTime()`, is a parameter;
-- the attributes and the resource are left out.
use Prim.Native.String
use loopstorm_guard.Common.{
  ℕ, ◌+◌, ◌*◌, ◌/◌, ◌%◌, String, Bool, Option, none, some, List, [], str_eq, if◌then◌else◌,
}
use loopstorm_guard.Spans.{SpanStatusResult, unset, plain, span_status_for_event}

pub record TraceEvent : Type 0 where
  pub event_type : String
  pub run_id : String
  pub seq : ℕ
  pub ts : String
  pub decision : Option String
  pub reason : Option String
  pub run_status : Option String
  pub latency_ms : Option ℕ
  pub trigger_run_id : Option String

-- Seconds and nanoseconds.
abbrev pub HrTime : Type 0
HrTime = ℕ × ℕ

abbrev pub hr_time : ℕ → HrTime
hr_time ms = (ms / 1000, ms % 1000 * 1000000)

pub record TimedEvent : Type 0 where
  pub name : String
  pub time : HrTime

-- `link` is the run of the link to the run that has triggered a supervisor.
pub record Span : Type 0 where
  pub name : String
  pub run_id : String
  pub seq : ℕ
  pub parent_seq : Option ℕ
  pub start_time : HrTime
  pub end_time : HrTime
  pub status : SpanStatusResult
  pub link : Option String
  pub events : List TimedEvent

abbrev is_root : TraceEvent → Bool
is_root e = str_eq e.event_type "run_started"

abbrev span_name : String → String
span_name event_type = String.◌++◌ "loopstorm." event_type

abbrev end_ms : TraceEvent → ℕ → ℕ
end_ms e start = elim e.latency_ms [
  | none ↦ start
  | some ms ↦ if str_eq e.event_type "policy_decision" then start + ms else start
]

abbrev link_of : TraceEvent → Option String
link_of e = if str_eq e.event_type "supervisor_run_started" then e.trigger_run_id else none

module _ (time_of : String → ℕ) where
  unfoldable pub build_span : TraceEvent → List TimedEvent → Span
  unfolding span_status_for_event
  build_span e root_span_events = record {
    name = span_name e.event_type;
    run_id = e.run_id;
    seq = if is_root e then 0 else e.seq;
    parent_seq = if is_root e then none else some 0;
    start_time = hr_time (time_of e.ts);
    end_time = hr_time (end_ms e (time_of e.ts));
    status = span_status_for_event e.event_type e.decision e.reason e.run_status;
    link = link_of e;
    events = if is_root e then root_span_events else [];
  }

  abbrev root_event_name : String → String
  root_event_name event_type =
      if str_eq event_type "budget_soft_cap_warning"
      then "loopstorm.budget_warning"
      else if str_eq event_type "budget_exceeded"
      then "loopstorm.budget_exceeded"
      else if str_eq event_type "loop_detected"
      then "loopstorm.loop_detected"
      else span_name event_type

  unfoldable pub build_root_span_event : TraceEvent → TimedEvent
  build_root_span_event e = record {
    name = root_event_name e.event_type;
    time = hr_time (time_of e.ts);
  }

  unfoldable pub finalize_root_span : Span → TraceEvent → List TimedEvent → Span
  unfolding span_status_for_event
  finalize_root_span root e root_span_events = record {
    name = "loopstorm.run_started";
    run_id = root.run_id;
    seq = root.seq;
    parent_seq = none;
    start_time = root.start_time;
    end_time = hr_time (time_of e.ts);
    status = span_status_for_event "run_ended" none none e.run_status;
    link = none;
    events = root_span_events;
  }

-- The root span of a run that has not ended: it ends when it starts.
unfoldable pub build_incomplete_root_span : Span → List TimedEvent → Span
build_incomplete_root_span root root_span_events = record {
  name = "loopstorm.run_started";
  run_id = root.run_id;
  seq = root.seq;
  parent_seq = none;
  start_time = root.start_time;
  end_time = root.start_time;
  status = plain unset;
  link = none;
  events = root_span_events;
}
