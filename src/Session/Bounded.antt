-- ===== src/Session/Bounded.antt =====
-- The bounds of a session: it ends, and it makes at most a hundred tool calls.
use loopstorm_guard.Common.{
  ℕ, zero, suc, ◌+◌, ◌≤◌, ◌<◌, ◌≡◌, ◌⊎◌, inl, inr, refl, ◌∙◌, String, List, [], ◌∷◌, ◌++◌, arith,
  Bool-cases, Option-cases, leb, str_eq, if◌then◌else◌, if_either, some,
}
use mathlib.Core.Path.{subst}
use loopstorm_guard.Json.{Fields, ◌<>◌, end}
use loopstorm_guard.Session.Sanitize.{check_tripwire, build_trigger_message}
use loopstorm_guard.Session.Events.{
  ContentBlock, Message, LlmResponse, SessionParams, Session, max_session_cost, max_tool_calls,
  estimated_cost, is_exhausted, emit_event, rationale_event, assistant, asked, about, new_session,
}
use loopstorm_guard.Session.Calls.{
  Called, ToolUse, call_tool, call_tools, counted, Created, created, no_event, unreadable,
  finish_call, result_content, is_spent, with_results, created_event,
}
use loopstorm_guard.Session.Turns.{
  TerminationReason, end_turn, max_tokens, budget_exhausted, error, Turn, stop, go, use_tools,
  tool_uses, respond, take_turn, used, SessionResult, response_text, take_turns, result_of, execute,
  started_session,
}

-- What the reason for the end of a session says about it.
pub Explains : SessionResult → TerminationReason → Type 0
Explains r budget_exhausted =
    (max_session_cost ≤ r.estimated_cost) ⊎ (r.session.tool_call_count ≡ max_tool_calls)
Explains r end_turn = r.session.tool_call_count < max_tool_calls
Explains r max_tokens = Unit
Explains r error = Unit

pub record IsStopped (r : SessionResult) : Type 0 where
  pub calls : r.session.tool_call_count ≤ max_tool_calls
  pub why : Explains r r.termination_reason

emit_event-count :
    (w : SessionParams) (t : String) (x : Fields) (s : Session)
    → (emit_event w t x s).tool_call_count ≡ s.tool_call_count
unfolding emit_event
emit_event-count w t x s = elim (Bool-cases (w.confirms_event (s.event_seq + 1))) [
  | inl e ↦ rw (e) refl
  | inr e ↦ rw (e) refl
]

emit_event-cost :
    (w : SessionParams) (t : String) (x : Fields) (s : Session)
    → estimated_cost (emit_event w t x s) ≡ estimated_cost s
unfolding emit_event
emit_event-cost w t x s = elim (Bool-cases (w.confirms_event (s.event_seq + 1))) [
  | inl e ↦ rw (e) refl
  | inr e ↦ rw (e) refl
]

-- A property of the session that every event keeps.
module _ (w : SessionParams) (P : Session → Type 0)
    (emits : (t : String) (x : Fields) (s : Session) → P s → P (emit_event w t x s)) where
  finish_call-keeps :
      (c : Created) (id content : String) (s : Session)
      → P s
      → P (finish_call w c id content s).session
  finish_call-keeps no_event id content s h = h
  finish_call-keeps (created t x) id content s h = emits t x s h
  finish_call-keeps unreadable id content s h = h

  pub call_tool-keeps :
      (call : ToolUse) (s : Session) → P (counted s) → P (call_tool w call s).session
  unfolding call_tool
  call_tool-keeps call s h =
      let content = result_content w (s.tool_call_count + 1) call.name call.input in
      let called = rationale_event w ("Tool call: " <> call.name) in
      finish_call-keeps (created_event w call.name call.input content) call.id content
        (emit_event w "supervisor_tool_call" called (counted s))
        (emits "supervisor_tool_call" called (counted s) h)

call_tool-count :
    (w : SessionParams) (call : ToolUse) (s : Session)
    → (call_tool w call s).session.tool_call_count ≡ s.tool_call_count + 1
call_tool-count w call s =
    call_tool-keeps w (λ t. t.tool_call_count ≡ s.tool_call_count + 1)
      (λ t x u h. emit_event-count w t x u ∙ h) call s refl

pub with_results-session :
    (done : List ContentBlock) (later : Called) → (with_results done later).session ≡ later.session
with_results-session done later = elim (Option-cases later.results) [
  | inl e ↦ rw (e) refl
  | inr (more, e) ↦ rw (e) refl
]

abbrev at_least : List ToolUse → ℕ
at_least [] = 0
at_least (call ∷ calls) = 1

-- The calls of one answer stop at the limit.
call_tools-bound :
    (w : SessionParams) (calls : List ToolUse) (s : Session)
    → s.tool_call_count < max_tool_calls
    → (s.tool_call_count + at_least calls ≤ (call_tools w calls s).session.tool_call_count)
      × ((call_tools w calls s).session.tool_call_count ≤ max_tool_calls)
unfolding call_tools
call_tools-bound w [] s h = (omega arith, omega arith)
call_tools-bound w (call ∷ calls) s h =
    let one = call_tool-count w call s in
    elim (Option-cases (call_tool w call s).results) [
      | inl e ↦ rw (call_tools, e) (ground (arith, one))
      | inr (done, e) ↦ elim (Bool-cases (is_spent (call_tool w call s).session)) [
        | inl e' ↦ rw (call_tools, e, e') (ground (arith, one))
        | inr e' ↦
            let s' = (call_tool w call s).session in
            let more : s'.tool_call_count < max_tool_calls = ground arith in
            rw (call_tools, e, e', with_results-session done (call_tools w calls s'))
              (ground (arith, one, call_tools-bound w calls s' more))
      ]
    ]

-- What a turn may do to the session: an end at a reason, or progress.
abbrev IsBoundedTurn : Session → Turn → Type 0
IsBoundedTurn s (stop s' budget_exhausted) =
    (s'.tool_call_count ≤ max_tool_calls) × (max_session_cost ≤ estimated_cost s')
IsBoundedTurn s (stop s' end_turn) = s'.tool_call_count ≤ max_tool_calls
IsBoundedTurn s (stop s' max_tokens) = s'.tool_call_count ≤ max_tool_calls
IsBoundedTurn s (stop s' error) = s'.tool_call_count ≤ max_tool_calls
IsBoundedTurn s (go messages s') =
    (s.tool_call_count < s'.tool_call_count) × (s'.tool_call_count ≤ max_tool_calls)

use_tools-IsBoundedTurn :
    (w : SessionParams) (messages : List Message) (calls : List ToolUse) (s : Session)
    → s.tool_call_count < max_tool_calls
    → IsBoundedTurn s (use_tools w messages calls s)
use_tools-IsBoundedTurn w messages [] s h = omega arith
use_tools-IsBoundedTurn w messages (call ∷ calls) s h =
    let bound = call_tools-bound w (call ∷ calls) s h in
    elim (Option-cases (call_tools w (call ∷ calls) s).results) [
      | inl e ↦ rw (e) bound.1
      | inr (results, e) ↦ rw (e) (omega (arith, bound.0), bound.1)
    ]

respond-IsBoundedTurn :
    (w : SessionParams) (messages : List Message) (r : LlmResponse) (s : Session)
    → s.tool_call_count < max_tool_calls
    → IsBoundedTurn s (respond w messages r s)
unfolding respond
respond-IsBoundedTurn w messages r s h =
    let P = IsBoundedTurn s in
    let ok : s.tool_call_count ≤ max_tool_calls = omega arith in
    let turn = use_tools w (messages ++ assistant r.content ∷ []) (tool_uses r.content) s in
    let cut = if str_eq r.stop_reason "max_tokens" then stop s max_tokens else turn in
    let ended = if str_eq r.stop_reason "end_turn" then stop s end_turn else cut in
    if_either P (check_tripwire (response_text r) w.internal_key) (stop s error) ended ok (
      if_either P (str_eq r.stop_reason "end_turn") (stop s end_turn) cut ok (
        if_either P (str_eq r.stop_reason "max_tokens") (stop s max_tokens) turn ok (
          use_tools-IsBoundedTurn w (messages ++ assistant r.content ∷ []) (tool_uses r.content) s
            h)))

take_turn-IsBoundedTurn :
    (w : SessionParams) (messages : List Message) (s : Session)
    → s.tool_call_count ≤ max_tool_calls
    → IsBoundedTurn s (take_turn w messages s)
unfolding take_turn
take_turn-IsBoundedTurn w messages s h = elim (Bool-cases (leb max_tool_calls s.tool_call_count)) [
  | inl e ↦ rw (e) h
  | inr e ↦ elim (Bool-cases (is_exhausted s)) [
    | inl e' ↦
        let last = rationale_event w "Session terminated: budget exhausted" in
        let enough : max_session_cost ≤ estimated_cost s = ground arith in
        rw
          (
            e,
            e',
            emit_event-count w "supervisor_tool_call" last s,
            emit_event-cost w "supervisor_tool_call" last s,
          )
          (h, enough)
    | inr e' ↦ elim (Option-cases (w.chat messages)) [
      | inl e'' ↦ rw (e, e', e'') h
      | inr (r, e'') ↦
          let few : s.tool_call_count < max_tool_calls = ground arith in
          rw (e, e', e'') (respond-IsBoundedTurn w messages r (used r s) few)
    ]
  ]
]

pub Turn-cases :
    (turn : Turn)
    → ((s : Session) × (reason : TerminationReason) × (turn ≡ stop s reason))
      ⊎ ((messages : List Message) × (s : Session) × (turn ≡ go messages s))
Turn-cases (stop s reason) = inl (s, reason, refl)
Turn-cases (go messages s) = inr (messages, s, refl)

-- A turn that goes on makes a call, so the loop ends before the fuel.
take_turns-ends :
    (w : SessionParams) (n : ℕ) (messages : List Message) (s : Session)
    → s.tool_call_count ≤ max_tool_calls
    → max_tool_calls < s.tool_call_count + n
    → (s' : Session) × (reason : TerminationReason) × (take_turns w n messages s
        ≡ some (s', reason))
      × IsBoundedTurn s (stop s' reason)
unfolding take_turns
take_turns-ends w zero messages s h enough = absurd (omega arith)
take_turns-ends w (suc n) messages s h enough = elim (Turn-cases (take_turn w messages s)) [
  | inl (s', reason, e) ↦
      let bound : IsBoundedTurn s (stop s' reason) =
        subst (λ t. IsBoundedTurn s t) e (take_turn-IsBoundedTurn w messages s h) in
      (s', reason, rw (take_turns, e) refl, bound)
  | inr (messages', s', e) ↦
      let (more, few) : IsBoundedTurn s (go messages' s') =
        subst (λ t. IsBoundedTurn s t) e (take_turn-IsBoundedTurn w messages s h) in
      let (s'', reason, ends, bound) = take_turns-ends w n messages' s' few (omega arith) in
      (s'', reason, rw (take_turns, e) ends, bound)
]

result_of-IsStopped :
    (s s' : Session) (reason : TerminationReason)
    → IsBoundedTurn s (stop s' reason)
    → IsStopped (result_of (s', reason))
unfolding Explains
result_of-IsStopped s s' budget_exhausted (few, cost) = record { calls = few; why = inl cost }
result_of-IsStopped s s' max_tokens few = record { calls = few; why = tt }
result_of-IsStopped s s' error few = record { calls = few; why = tt }
result_of-IsStopped s s' end_turn few = elim (Bool-cases (leb max_tool_calls s'.tool_call_count)) [
  | inl e ↦ rw (e) (record { calls = few; why = inr (ground arith) })
  | inr e ↦ rw (e) (record { calls = few; why = ground arith })
]

-- A session ends, whatever the model, the handlers and the backend do: it has made at most 100
-- tool calls; when its reason is the budget, it has spent two dollars or made 100 calls, and when
-- its reason is the end of the turn, it has made fewer than 100.
pub execute-IsStopped :
    (w : SessionParams) → (r : SessionResult) × (execute w ≡ some r) × IsStopped r
unfolding execute
execute-IsStopped w =
    let first = asked (build_trigger_message w.trigger w.trigger_run_id) ∷ [] in
    let none_yet : (started_session w).tool_call_count ≡ 0 =
      emit_event-count w "supervisor_run_started" (about w end) new_session in
    let (s, reason, ends, bound) =
      take_turns-ends w 101 first (started_session w) (omega (arith, none_yet))
        (omega (arith, none_yet)) in
    (
      result_of (s, reason),
      rw (execute, ends) refl,
      result_of-IsStopped (started_session w) s reason bound,
    )
