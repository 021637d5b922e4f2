-- ===== src/Supervisor/Bounded.antt =====
-- The bounds of the supervisor process, and what becomes of an accepted trigger.
use loopstorm_guard.Common.{
  ℕ, ◌+◌, ◌-◌, ◌≤◌, ◌<◌, ◌≡◌, ◌⊎◌, inl, inr, refl, sym, ap, ◌∙◌, true, false, Option, none, some,
  List, [], ◌∷◌, ◌++◌, arith, Bool-cases, length, length-append, ltb, leb, append_assoc, append-nil,
  String,
}
use loopstorm_guard.Supervisor.{
  QueuedTrigger, Supervisor, max_concurrent, max_queue, drain, finish_session, admit,
  handle_trigger, process_trigger, is_authorized, is_incomplete, Happening, post, finish, Log,
  happen, happen_all, idle,
}

-- At most five sessions are active and at most fifty triggers wait, none of them while a session
-- could be started.
pub record IsBounded (s : Supervisor) : Type 0 where
  pub active : s.active_sessions ≤ max_concurrent
  pub queued : length s.pending_queue ≤ max_queue
  pub busy : (s.pending_queue ≡ []) ⊎ (s.active_sessions ≡ max_concurrent)

-- All that has been accepted has been started or waits, in the order of acceptance.
abbrev pub IsFair : Log → Type 0
IsFair log = log.taken ≡ log.supervisor.started ++ log.supervisor.pending_queue

drain-IsBounded :
    (active : ℕ) (queue started : List QueuedTrigger)
    → active ≤ max_concurrent
    → length queue ≤ max_queue
    → IsBounded (drain active queue started)
unfolding drain
drain-IsBounded active [] started a q = record { active = a; queued = q; busy = inl refl }
drain-IsBounded active (next ∷ rest) started a q = elim (Bool-cases (ltb active max_concurrent)) [
  | inl e ↦
      rw (drain, e)
        (drain-IsBounded (active + 1) rest (started ++ next ∷ []) (ground arith) (omega arith))
  | inr e ↦
      let full : active ≡ max_concurrent = ground arith in
      rw (drain, e) (record { active = a; queued = q; busy = inr full })
]

drain-order :
    (active : ℕ) (queue started : List QueuedTrigger)
    → (drain active queue started).started ++ (drain active queue started).pending_queue
      ≡ started ++ queue
unfolding drain
drain-order active [] started = refl
drain-order active (next ∷ rest) started = elim (Bool-cases (ltb active max_concurrent)) [
  | inl e ↦
      rw (drain, e)
        (drain-order (active + 1) rest (started ++ next ∷ [])
          ∙ append_assoc started (next ∷ []) rest)
  | inr e ↦ rw (drain, e) refl
]

-- What a request does: nothing, the start of a session, or one more trigger in the queue.
Started : QueuedTrigger → Log → Log → Type 0
Started b log after =
    (log.supervisor.active_sessions < max_concurrent)
    × (after
        ≡ record { supervisor = process_trigger b log.supervisor; taken = log.taken ++ b ∷ [] })

Queued : QueuedTrigger → Log → Log → Type 0
Queued b log after =
    (max_concurrent ≤ log.supervisor.active_sessions)
    × (length log.supervisor.pending_queue < max_queue)
    × (after ≡ record {
      supervisor = record log.supervisor { pending_queue = log.supervisor.pending_queue ++ b ∷ [] };
      taken = log.taken ++ b ∷ [];
    })

post_cases :
    (internal_key header : Option String) (body : Option QueuedTrigger) (log : Log)
    → (happen internal_key (post header body) log ≡ log)
      ⊎ ((b : QueuedTrigger) × (Started b log (happen internal_key (post header body) log)
            ⊎ Queued b log (happen internal_key (post header body) log)))
unfolding happen handle_trigger admit Started Queued
post_cases internal_key header body log = elim (Bool-cases (is_authorized internal_key header)) [
  | inr e ↦ inl (rw (happen, handle_trigger, e) refl)
  | inl e ↦ with_body body e
]
  where
    with_body :
        (body : Option QueuedTrigger)
        → is_authorized internal_key header ≡ true
        → (happen internal_key (post header body) log ≡ log)
          ⊎ ((b : QueuedTrigger) × (Started b log (happen internal_key (post header body) log)
                ⊎ Queued b log (happen internal_key (post header body) log)))
    with_body none e = inl (rw (happen, handle_trigger, e) refl)
    with_body (some b) e = elim (Bool-cases (is_incomplete b)) [
      | inl t ↦ inl (rw (happen, handle_trigger, e, t) refl)
      | inr t ↦ elim (Bool-cases (ltb log.supervisor.active_sessions max_concurrent)) [
        | inl free ↦
            let room : leb max_concurrent log.supervisor.active_sessions ≡ false = ground arith in
            inr (b, inl (ground arith, rw (happen, handle_trigger, e, t, admit, room, free) refl))
        | inr busy ↦
            let full : leb max_concurrent log.supervisor.active_sessions ≡ true = ground arith in
            elim (Bool-cases (leb max_queue (length log.supervisor.pending_queue))) [
              | inl q ↦ inl (rw (happen, handle_trigger, e, t, admit, full, q) refl)
              | inr q ↦ inr (
                b,
                inr (
                  ground arith,
                  ground arith,
                  rw (happen, handle_trigger, e, t, admit, full, q, busy) refl,
                ),
              )
            ]
      ]
    ]

pub record IsSound (log : Log) : Type 0 where
  pub bounded : IsBounded log.supervisor
  pub fair : IsFair log

start-IsSound :
    (b : QueuedTrigger) (log after : Log) → IsSound log → Started b log after → IsSound after
unfolding Started
start-IsSound b log after h (free, e) =
    let no_queue : log.supervisor.pending_queue ≡ [] = elim h.bounded.busy [
      | inl empty ↦ empty
      | inr full ↦ absurd (omega arith)
    ] in
    rw e (record {
      bounded = record { active = omega arith; queued = h.bounded.queued; busy = inl no_queue };
      fair =
          ap (λ t. t ++ b ∷ []) h.fair
          ∙ (ap (λ q. (log.supervisor.started ++ q) ++ b ∷ []) no_queue
              ∙ (ap (λ t. t ++ b ∷ []) (append-nil log.supervisor.started)
                  ∙ (sym (append-nil (log.supervisor.started ++ b ∷ []))
                      ∙ ap (λ q. (log.supervisor.started ++ b ∷ []) ++ q) (sym no_queue))));
    })

queue-IsSound :
    (b : QueuedTrigger) (log after : Log) → IsSound log → Queued b log after → IsSound after
unfolding Queued
queue-IsSound b log after h (full, room, e) = rw e (record {
  bounded = record {
    active = h.bounded.active;
    queued = omega (arith, length-append log.supervisor.pending_queue (b ∷ []));
    busy = inr (omega (arith, h.bounded.active));
  };
  fair =
      ap (λ t. t ++ b ∷ []) h.fair
      ∙ append_assoc log.supervisor.started log.supervisor.pending_queue (b ∷ []);
})

finish-IsSound :
    (internal_key : Option String) (log : Log)
    → IsSound log
    → IsSound (happen internal_key finish log)
unfolding happen finish_session
finish-IsSound internal_key log h = elim (Bool-cases (ltb 0 log.supervisor.active_sessions)) [
  | inr e ↦ rw (happen, finish_session, e) h
  | inl e ↦
      let s : Supervisor = log.supervisor in
      rw (happen, finish_session, e)
        (record {
          bounded =
              drain-IsBounded (s.active_sessions - 1) s.pending_queue s.started
                (omega (arith, h.bounded.active)) h.bounded.queued;
          fair = h.fair ∙ sym (drain-order (s.active_sessions - 1) s.pending_queue s.started);
        })
]

happen-IsSound :
    (internal_key : Option String) (what : Happening) (log : Log)
    → IsSound log
    → IsSound (happen internal_key what log)
happen-IsSound internal_key finish log h = finish-IsSound internal_key log h
happen-IsSound internal_key (post header body) log h =
    elim (post_cases internal_key header body log) [
      | inl e ↦ rw e h
      | inr (b, k) ↦ elim k [
        | inl t ↦ start-IsSound b log _ h t
        | inr t ↦ queue-IsSound b log _ h t
      ]
    ]

happen_all_from-IsSound :
    (internal_key : Option String) (hs : List Happening) (log : Log)
    → IsSound log
    → IsSound (happen_all internal_key hs log)
unfolding happen_all
happen_all_from-IsSound internal_key [] log h = h
happen_all_from-IsSound internal_key (x ∷ hs) log h =
    happen_all_from-IsSound internal_key hs (happen internal_key x log)
      (happen-IsSound internal_key x log h)

-- Whatever requests come and whenever sessions end, from an idle process: at most five sessions are
-- active, at most fifty triggers wait, none waits while fewer than five sessions are active, and
-- the triggers of the sessions started so far, followed by those that wait, are the accepted
-- triggers in the order of acceptance.
pub happen_all-IsSound :
    (internal_key : Option String) (hs : List Happening) → IsSound (happen_all internal_key hs idle)
happen_all-IsSound internal_key hs = happen_all_from-IsSound internal_key hs idle (record {
  bounded = record { active = omega arith; queued = omega arith; busy = inl refl };
  fair = refl;
})
