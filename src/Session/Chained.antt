-- ===== src/Session/Chained.antt =====
-- The chain of the events of a session that the backend confirms.
use loopstorm_guard.Common.{
  ℕ, zero, suc, ◌+◌, ◌≤◌, ◌<◌, ◌≡◌, inl, inr, refl, sym, String, List, [], ◌∷◌, ◌++◌, arith,
  Bool-cases, Option-cases, Option, none, some, leb, str_eq, if◌then◌else◌, if_either,
}
use mathlib.Core.Path.{subst}
use loopstorm_guard.Json.{Fields, end}
use loopstorm_guard.Session.Sanitize.{check_tripwire, build_trigger_message, stringify}
use loopstorm_guard.Session.Events.{
  Emitted, Message, LlmResponse, SessionParams, Session, payload, emit_event, rationale_event,
  assistant, asked, about, new_session, is_exhausted, max_tool_calls, Event,
}
use loopstorm_guard.Session.Calls.{ToolUse, call_tool, call_tools, is_spent}
use loopstorm_guard.Session.Turns.{
  end_turn, max_tokens, error, Turn, stop, go, use_tools, tool_uses, respond, take_turn, take_turns,
  used, SessionResult, execute, response_text, started_session,
}
use loopstorm_guard.Session.Bounded.{call_tool-keeps, with_results-session, Turn-cases}

-- The events continue a chain whose last hash and number are given: each names the hash of the
-- one before, carries the hash of its own payload, and has a greater number.
pub IsLinked : SessionParams → Option String → ℕ → List Emitted → Type 0
IsLinked w prev n [] = Unit
IsLinked w prev n (e ∷ es) =
    (e.hash_prev ≡ prev)
    × (e.hash ≡ w.sha256 (stringify (payload w e.event)))
    × (n < e.event.seq)
    × IsLinked w (some e.hash) e.event.seq es

abbrev last_hash_of : Option String → List Emitted → Option String
last_hash_of prev [] = prev
last_hash_of prev (e ∷ es) = last_hash_of (some e.hash) es

abbrev last_seq_of : ℕ → List Emitted → ℕ
last_seq_of n [] = n
last_seq_of n (e ∷ es) = last_seq_of e.event.seq es

last_hash_of-append :
    (prev : Option String) (es : List Emitted) (e : Emitted)
    → last_hash_of prev (es ++ e ∷ []) ≡ some e.hash
last_hash_of-append prev [] e = refl
last_hash_of-append prev (x ∷ es) e = last_hash_of-append (some x.hash) es e

last_seq_of-append :
    (n : ℕ) (es : List Emitted) (e : Emitted) → last_seq_of n (es ++ e ∷ []) ≡ e.event.seq
last_seq_of-append n [] e = refl
last_seq_of-append n (x ∷ es) e = last_seq_of-append x.event.seq es e

IsLinked-append :
    (w : SessionParams) (prev : Option String) (n : ℕ) (es : List Emitted) (e : Emitted)
    → IsLinked w prev n es
    → e.hash_prev ≡ last_hash_of prev es
    → e.hash ≡ w.sha256 (stringify (payload w e.event))
    → last_seq_of n es < e.event.seq
    → IsLinked w prev n (es ++ e ∷ [])
unfolding IsLinked
IsLinked-append w prev n [] e links p h k = (p, h, k, tt)
IsLinked-append w prev n (x ∷ es) e (p', h', k', links) p h k =
    (p', h', k', IsLinked-append w (some x.hash) x.event.seq es e links p h k)

-- The session knows the last hash of its chain, and a number that the chain has not passed.
record IsTrail (w : SessionParams) (s : Session) : Type 0 where
  linked : IsLinked w none 0 s.emitted
  tip : s.last_hash ≡ last_hash_of none s.emitted
  below : last_seq_of 0 s.emitted ≤ s.event_seq

emit_event-IsTrail :
    (w : SessionParams) (t : String) (x : Fields) (s : Session)
    → IsTrail w s
    → IsTrail w (emit_event w t x s)
unfolding emit_event
emit_event-IsTrail w t x s h =
    let seq = s.event_seq + 1 in
    let event : Event = record { event_type = t; seq = seq; ts = w.clock seq; extra = x } in
    let e : Emitted = record {
      event = event;
      hash = w.sha256 (stringify (payload w event));
      hash_prev = s.last_hash;
    } in
    let below' : last_seq_of 0 s.emitted < seq = omega (arith, h.below) in
    elim (Bool-cases (w.confirms_event seq)) [
      | inl taken ↦ rw (taken) (record {
        linked = IsLinked-append w none 0 s.emitted e h.linked h.tip refl below';
        tip = sym (last_hash_of-append none s.emitted e);
        below = rw (last_seq_of-append 0 s.emitted e) (omega arith);
      })
      | inr lost ↦
          rw (lost) (record { linked = h.linked; tip = h.tip; below = omega (arith, h.below) })
    ]

call_tool-IsTrail :
    (w : SessionParams) (call : ToolUse) (s : Session)
    → IsTrail w s
    → IsTrail w (call_tool w call s).session
call_tool-IsTrail w call s h =
    call_tool-keeps w (IsTrail w) (emit_event-IsTrail w) call s
      (record { linked = h.linked; tip = h.tip; below = h.below })

call_tools-IsTrail :
    (w : SessionParams) (calls : List ToolUse) (s : Session)
    → IsTrail w s
    → IsTrail w (call_tools w calls s).session
unfolding call_tools
call_tools-IsTrail w [] s h = h
call_tools-IsTrail w (call ∷ calls) s h =
    let one = call_tool-IsTrail w call s h in
    elim (Option-cases (call_tool w call s).results) [
      | inl e ↦ rw (call_tools, e) one
      | inr (done, e) ↦ elim (Bool-cases (is_spent (call_tool w call s).session)) [
        | inl e' ↦ rw (call_tools, e, e') one
        | inr e' ↦
            let s' = (call_tool w call s).session in
            rw (call_tools, e, e', with_results-session done (call_tools w calls s'))
              (call_tools-IsTrail w calls s' one)
      ]
    ]

abbrev session_of : Turn → Session
session_of (stop s reason) = s
session_of (go messages s) = s

use_tools-IsTrail :
    (w : SessionParams) (messages : List Message) (calls : List ToolUse) (s : Session)
    → IsTrail w s
    → IsTrail w (session_of (use_tools w messages calls s))
use_tools-IsTrail w messages [] s h = h
use_tools-IsTrail w messages (call ∷ calls) s h =
    let after = call_tools-IsTrail w (call ∷ calls) s h in
    elim (Option-cases (call_tools w (call ∷ calls) s).results) [
      | inl e ↦ rw (e) after
      | inr (results, e) ↦ rw (e) after
    ]

respond-IsTrail :
    (w : SessionParams) (messages : List Message) (r : LlmResponse) (s : Session)
    → IsTrail w s
    → IsTrail w (session_of (respond w messages r s))
unfolding respond
respond-IsTrail w messages r s h =
    let P : Turn → Type 0 = λ t. IsTrail w (session_of t) in
    let turn = use_tools w (messages ++ assistant r.content ∷ []) (tool_uses r.content) s in
    let cut = if str_eq r.stop_reason "max_tokens" then stop s max_tokens else turn in
    let ended = if str_eq r.stop_reason "end_turn" then stop s end_turn else cut in
    if_either P (check_tripwire (response_text r) w.internal_key) (stop s error) ended h (
      if_either P (str_eq r.stop_reason "end_turn") (stop s end_turn) cut h (
        if_either P (str_eq r.stop_reason "max_tokens") (stop s max_tokens) turn h
          (use_tools-IsTrail w (messages ++ assistant r.content ∷ []) (tool_uses r.content) s h)))

take_turn-IsTrail :
    (w : SessionParams) (messages : List Message) (s : Session)
    → IsTrail w s
    → IsTrail w (session_of (take_turn w messages s))
unfolding take_turn
take_turn-IsTrail w messages s h = elim (Bool-cases (leb max_tool_calls s.tool_call_count)) [
  | inl e ↦ rw (e) h
  | inr e ↦ elim (Bool-cases (is_exhausted s)) [
    | inl e' ↦
        let last = rationale_event w "Session terminated: budget exhausted" in
        rw (e, e') (emit_event-IsTrail w "supervisor_tool_call" last s h)
    | inr e' ↦ elim (Option-cases (w.chat messages)) [
      | inl e'' ↦ rw (e, e', e'') h
      | inr (r, e'') ↦
          let now : IsTrail w (used r s) = record {
            linked = h.linked;
            tip = h.tip;
            below = h.below;
          } in
          rw (e, e', e'') (respond-IsTrail w messages r (used r s) now)
    ]
  ]
]

-- The value, if there is one, has the property.
abbrev IfSome : {A : Type 0} → (A → Type 0) → Option A → Type 0
IfSome P none = Unit
IfSome P (some a) = P a

take_turns-IsTrail :
    (w : SessionParams) (n : ℕ) (messages : List Message) (s : Session)
    → IsTrail w s
    → IfSome (λ ended. IsTrail w ended.0) (take_turns w n messages s)
unfolding take_turns
take_turns-IsTrail w zero messages s h = tt
take_turns-IsTrail w (suc n) messages s h =
    let after = take_turn-IsTrail w messages s h in
    elim (Turn-cases (take_turn w messages s)) [
      | inl (s', reason, e) ↦ rw (take_turns, e) (subst (λ t. IsTrail w (session_of t)) e after)
      | inr (messages', s', e) ↦
          rw (take_turns, e)
            (take_turns-IsTrail w n messages' s' (subst (λ t. IsTrail w (session_of t)) e after))
    ]

new_session-IsTrail : (w : SessionParams) → IsTrail w new_session
unfolding IsLinked
new_session-IsTrail w = record { linked = tt; tip = refl; below = omega arith }

execute-ended : (w : SessionParams) → IfSome (λ r. IsLinked w none 0 r.session.emitted) (execute w)
unfolding execute
execute-ended w =
    let first = asked (build_trigger_message w.trigger w.trigger_run_id) ∷ [] in
    let begun =
      emit_event-IsTrail w "supervisor_run_started" (about w end) new_session
        (new_session-IsTrail w) in
    let after = take_turns-IsTrail w 101 first (started_session w) begun in
    elim (Option-cases (take_turns w 101 first (started_session w))) [
      | inl e ↦ rw (execute, e) tt
      | inr (ended, e) ↦
          let trail : IsTrail w ended.0 = subst (IfSome (λ x. IsTrail w x.0)) e after in
          rw (execute, e) trail.linked
    ]

-- In any session the events that the backend confirms form a chain: the first names no hash before
-- it, each other one names the hash of the one confirmed before it, each carries the hash of its
-- own payload, and their numbers grow, also where other events fail in between.
pub execute-IsLinked :
    (w : SessionParams) (r : SessionResult)
    → execute w ≡ some r
    → IsLinked w none 0 r.session.emitted
execute-IsLinked w r ends =
    subst (IfSome (λ x. IsLinked w none 0 x.session.emitted)) ends (execute-ended w)
