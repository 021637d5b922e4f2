-- ===== src/Exporter/Buffered.antt =====
-- The size of the buffer, and its keys.
use loopstorm_guard.Common.{
  ℕ, suc, ◌≤◌, ◌<◌, ◌≡◌, refl, ◌⊎◌, inl, inr, String, true, none, some, List, [], ◌∷◌, ◌++◌, ltb,
  leb, str_eq, str_eq_iff, length, arith, Bool-cases, Option-cases,
}
use loopstorm_guard.Common.Dict.{
  get, IsDistinct, get-delete, set-IsDistinct, delete-IsDistinct, delete_where-IsDistinct,
  length-delete_where, length-delete, length-delete_present, length-set_absent, length-set_present,
}
use loopstorm_guard.Exporter.Span.{TraceEvent, Span}
use loopstorm_guard.Exporter.Buffer.{
  max_concurrent_traces, BufferedTrace, Traces, new_trace, oldest_from, evict_oldest, ensure_trace,
  flush_timed_out, flush_all, add_to_trace, add_event, is_timed_out,
}

get-cons :
    (k i : String) (t : BufferedTrace) (m : Traces)
    → (k ≡ i) ⊎ ((x : BufferedTrace) × (get k m ≡ some x))
    → (x : BufferedTrace) × (get k ((i, t) ∷ m) ≡ some x)
unfolding get
get-cons k i t m key = elim (Bool-cases (str_eq i k)) [
  | inl e ↦ (t, rw (get, e) refl)
  | inr e ↦ elim key [
    | inl same ↦ absurd (ground (arith, str_eq_iff i k, same))
    | inr (x, there) ↦ (x, rw (get, e) there)
  ]
]

-- The oldest trace is one of the buffer.
oldest_from-key :
    (j : String) (time : ℕ) (m : Traces)
    → (k : String) × (time' : ℕ) × (oldest_from (some (j, time)) m ≡ some (k, time'))
      × ((k ≡ j) ⊎ ((t : BufferedTrace) × (get k m ≡ some t)))
unfolding oldest_from get
oldest_from-key j time [] = (j, time, refl, inl refl)
oldest_from-key j time ((i, t) ∷ m) = elim (Bool-cases (ltb t.first_event_time time)) [
  | inl e ↦
      let (k, time', found, key) = oldest_from-key i t.first_event_time m in
      (k, time', rw (oldest_from, e) found, inr (get-cons k i t m key))
  | inr e ↦
      let (k, time', found, key) = oldest_from-key j time m in
      (
        k,
        time',
        rw (oldest_from, e) found,
        elim key [ inl same ↦ inl same | inr there ↦ inr (get-cons k i t m (inr there)) ],
      )
]

evict_oldest-length :
    (k : String) (t : BufferedTrace) (m : Traces)
    → suc (length (evict_oldest ((k, t) ∷ m))) ≤ suc (length m)
unfolding evict_oldest oldest_from
evict_oldest-length k t m =
    let (j, time, found, key) = oldest_from-key k t.first_event_time m in
    let (t', there) = get-cons j k t m key in
    rw (evict_oldest, oldest_from, found)
      (omega (arith, length-delete_present j t' ((k, t) ∷ m) there))

-- The buffer holds at most 1000 traces, and one of a run.
abbrev pub IsBounded : Traces → Type 0
IsBounded m = (length m ≤ max_concurrent_traces) × IsDistinct m

evict_oldest-absent :
    (run_id : String) (m : Traces) → get run_id m ≡ none → get run_id (evict_oldest m) ≡ none
unfolding evict_oldest
evict_oldest-absent run_id m h = elim (Option-cases (oldest_from none m)) [
  | inl e ↦ rw (evict_oldest, e) h
  | inr (p, e) ↦ rw (evict_oldest, e) (ground (arith, get-delete p.0 run_id m))
]

evict_oldest-IsDistinct : (m : Traces) → IsDistinct m → IsDistinct (evict_oldest m)
unfolding evict_oldest
evict_oldest-IsDistinct m h = elim (Option-cases (oldest_from none m)) [
  | inl e ↦ rw (evict_oldest, e) h
  | inr (p, e) ↦ rw (evict_oldest, e) (delete-IsDistinct p.0 m h)
]

evict_oldest-le :
    (m : Traces)
    → length m ≤ max_concurrent_traces
    → suc (length (evict_oldest m)) ≤ max_concurrent_traces
unfolding evict_oldest oldest_from
evict_oldest-le [] h = omega arith
evict_oldest-le ((k, t) ∷ m) h = omega (arith, evict_oldest-length k t m)

pub ensure_trace-IsBounded :
    (run_id : String) (now : ℕ) (m : Traces) → IsBounded m → IsBounded (ensure_trace run_id now m)
unfolding ensure_trace
ensure_trace-IsBounded run_id now m (few, distinct) = elim (Option-cases (get run_id m)) [
  | inr (t, e) ↦ rw (ensure_trace, e, IsBounded) (few, distinct)
  | inl e ↦ elim (Bool-cases (leb max_concurrent_traces (length m))) [
    | inl full ↦
        rw (ensure_trace, e, full, IsBounded)
          (
            omega (
              arith,
              evict_oldest-le m few,
              length-set_absent run_id (new_trace run_id now) (evict_oldest m)
                  (evict_oldest-absent run_id m e),
            ),
            set-IsDistinct run_id (new_trace run_id now) (evict_oldest m)
                (evict_oldest-IsDistinct m distinct),
          )
    | inr free ↦
        let below : length m < max_concurrent_traces = ground (arith, free) in
        rw (ensure_trace, e, free, IsBounded)
          (
            omega (arith, below, length-set_absent run_id (new_trace run_id now) m e),
            set-IsDistinct run_id (new_trace run_id now) m distinct,
          )
  ]
]

-- What happens to the buffer.
pub data BufferCall : Type 0 where
  adds : (e : TraceEvent) (now : ℕ) → BufferCall
  flushes_timed_out : (now timeout_ms : ℕ) → BufferCall
  flushes_all : BufferCall

module _ (time_of : String → ℕ) where
  unfoldable pub step : BufferCall → Traces → Traces × List Span
  step (adds e now) m = add_event time_of e now m
  step (flushes_timed_out now timeout_ms) m = flush_timed_out now timeout_ms m
  step flushes_all m = flush_all m

  -- The buffer and all the spans that have been flushed.
  unfoldable pub run : List BufferCall → Traces → Traces × List Span
  run [] m = (m, [])
  run (c ∷ cs) m = let now = step c m in let later = run cs now.0 in (later.0, now.1 ++ later.1)

  add_to_trace-IsBounded :
      (e : TraceEvent) (t t' : BufferedTrace) (m : Traces)
      → get e.run_id m ≡ some t'
      → IsBounded m
      → IsBounded (add_to_trace time_of e t m).0
  unfolding add_to_trace
  add_to_trace-IsBounded e t t' m here (few, distinct) =
      elim (Bool-cases (str_eq e.event_type "run_started")) [
        | inl k ↦
            rw (add_to_trace, k, IsBounded)
              (
                omega (arith, few, length-set_present e.run_id _ t' m here),
                set-IsDistinct e.run_id _ m distinct,
              )
        | inr k ↦ elim (Bool-cases (str_eq e.event_type "run_ended")) [
          | inl o ↦
              rw (add_to_trace, k, o, IsBounded)
                (
                  omega (arith, few, length-delete e.run_id m),
                  delete-IsDistinct e.run_id m distinct,
                )
          | inr o ↦
              rw (add_to_trace, k, o, IsBounded)
                (
                  omega (arith, few, length-set_present e.run_id _ t' m here),
                  set-IsDistinct e.run_id _ m distinct,
                )
        ]
      ]

  pub step-IsBounded : (c : BufferCall) (m : Traces) → IsBounded m → IsBounded (step c m).0
  unfolding step add_event flush_timed_out flush_all
  step-IsBounded (adds e now) m h =
      let h' = ensure_trace-IsBounded e.run_id now m h in
      elim (Option-cases (get e.run_id (ensure_trace e.run_id now m))) [
        | inl k ↦ rw (add_event, k, IsBounded) h'
        | inr (t, k) ↦ rw (add_event, k, IsBounded) (add_to_trace-IsBounded e _ t _ k h')
      ]
  step-IsBounded (flushes_timed_out now timeout_ms) m (few, distinct) = (
    omega (arith, few, length-delete_where (is_timed_out now timeout_ms) m),
    delete_where-IsDistinct (is_timed_out now timeout_ms) m distinct,
  )
  step-IsBounded flushes_all m (few, distinct) = (
    omega (arith, few, length-delete_where (λ (t : BufferedTrace). true) m),
    delete_where-IsDistinct (λ (t : BufferedTrace). true) m distinct,
  )

  -- In any history of events, time-outs and flushes, a buffer with at most 1000 traces, one of a run,
  -- stays so: a trace is evicted before the one that would be too many is made.
  pub run-IsBounded : (cs : List BufferCall) (m : Traces) → IsBounded m → IsBounded (run cs m).0
  unfolding run
  run-IsBounded [] m h = h
  run-IsBounded (c ∷ cs) m h = run-IsBounded cs (step c m).0 (step-IsBounded c m h)
