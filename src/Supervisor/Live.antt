-- ===== src/Supervisor/Live.antt =====
-- Every accepted trigger is started once enough sessions have ended.
use loopstorm_guard.Common.{
  ℕ, zero, suc, ◌≡◌, inl, inr, refl, sym, ap, ◌∙◌, Option, List, [], ◌∷◌, ◌++◌, length, append-nil,
  append_assoc, String,
}
use loopstorm_guard.Supervisor.{
  QueuedTrigger, Supervisor, max_concurrent, drain, finish_session, Log, happen, finish,
}
use loopstorm_guard.Supervisor.Bounded.{IsSound}

-- That many sessions end, and nothing else happens.
unfoldable pub sessions_end : ℕ → Option String → Log → Log
sessions_end zero internal_key log = log
sessions_end (suc n) internal_key log = sessions_end n internal_key (happen internal_key finish log)

abbrev full : List QueuedTrigger → List QueuedTrigger → Supervisor
full queue started = record {
  active_sessions = max_concurrent;
  pending_queue = queue;
  started = started;
}

drain-full :
    (queue started : List QueuedTrigger) → drain max_concurrent queue started ≡ full queue started
unfolding drain
drain-full [] started = refl
drain-full (b ∷ queue) started = refl

finish-full :
    (internal_key : Option String) (b : QueuedTrigger) (queue started taken : List QueuedTrigger)
    → happen internal_key finish (record { supervisor = full (b ∷ queue) started; taken = taken })
      ≡ record { supervisor = full queue (started ++ b ∷ []); taken = taken }
unfolding happen finish_session drain
finish-full internal_key b queue started taken =
    ap (λ s. record { supervisor = s; taken = taken }) (drain-full queue (started ++ b ∷ []))

sessions_end-full :
    (internal_key : Option String) (queue started taken : List QueuedTrigger)
    → sessions_end
        (length queue)
        internal_key
        (record { supervisor = full queue started; taken = taken })
      ≡ record { supervisor = full [] (started ++ queue); taken = taken }
unfolding sessions_end
sessions_end-full internal_key [] started taken =
    ap (λ st. record { supervisor = full [] st; taken = taken }) (sym (append-nil started))
sessions_end-full internal_key (b ∷ queue) started taken =
    ap (sessions_end (length queue) internal_key) (finish-full internal_key b queue started taken)
    ∙ (sessions_end-full internal_key queue (started ++ b ∷ []) taken
        ∙ ap (λ st. record { supervisor = full [] st; taken = taken })
            (append_assoc started (b ∷ []) queue))

-- In a state that is bounded and keeps the order of acceptance: after as many sessions have ended
-- as triggers wait, with no request in between, none waits any more, and the sessions started are
-- those of all the triggers accepted, in the order of acceptance.
pub sessions_end-started :
    (internal_key : Option String) (log : Log)
    → IsSound log
    → ((sessions_end
          (length log.supervisor.pending_queue)
          internal_key
          log).supervisor.pending_queue
        ≡ [])
      × ((sessions_end (length log.supervisor.pending_queue) internal_key log).supervisor.started
          ≡ log.taken)
unfolding sessions_end
sessions_end-started internal_key log h = elim h.bounded.busy [
  | inl empty ↦
      let same : sessions_end (length log.supervisor.pending_queue) internal_key log ≡ log =
        ap (λ (q : List QueuedTrigger). sessions_end (length q) internal_key log) empty in
      let all_started : log.supervisor.started ≡ log.taken = sym (
        h.fair
        ∙ (ap (λ q. log.supervisor.started ++ q) empty ∙ append-nil log.supervisor.started)) in
      (
        ap (λ (l : Log). l.supervisor.pending_queue) same ∙ empty,
        ap (λ (l : Log). l.supervisor.started) same ∙ all_started,
      )
  | inr busy ↦
      let s : Supervisor = log.supervisor in
      let here : log ≡ record { supervisor = full s.pending_queue s.started; taken = log.taken } =
        ap (λ n. record { supervisor = record s { active_sessions = n }; taken = log.taken })
          busy in
      let after =
        ap (sessions_end (length s.pending_queue) internal_key) here
        ∙ sessions_end-full internal_key s.pending_queue s.started log.taken in
      (
        ap (λ (l : Log). l.supervisor.pending_queue) after,
        ap (λ (l : Log). l.supervisor.started) after ∙ sym h.fair,
      )
]
