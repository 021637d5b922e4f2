-- ===== src/Review/EscalationColumns.antt =====
-- The columns of the escalations over any history of operations.
use loopstorm_guard.Common.{
  ℕ, ◌≡◌, inl, inr, refl, String, Bool, true, Option, none, List, [], ◌∷◌, All, All-append, arith,
  is_some,
}
use loopstorm_guard.Review.Table.{All-update_where}
use loopstorm_guard.Review.Escalations.{
  Escalation, EscalationStatus, opened, acknowledged, resolved, expired, is_own_in, move,
  acknowledged_row, resolved_row, acknowledge_escalation, resolve_escalation, open_row, is_overdue,
  expired_row, expire_escalations, is_timed_out,
}
use loopstorm_guard.Review.EscalationLife.{
  EscalationCall, acknowledge, resolve, create, expire, step_escalations, run_escalations,
  move_cases, create_cases, guard_status, overdue_status,
}

-- The columns fit the status: an open or expired escalation was acknowledged by no one, an
-- acknowledged or resolved one by someone at some time, and an expired one has a timeout, which was
-- over when it expired.
abbrev pub Handled : EscalationStatus → Option String → Option ℕ → Bool → Type 0
Handled opened by at due = (by ≡ none) × (at ≡ none)
Handled acknowledged by at due = (is_some by ≡ true) × (is_some at ≡ true)
Handled resolved by at due = (is_some by ≡ true) × (is_some at ≡ true)
Handled expired by at due = (by ≡ none) × (at ≡ none) × (due ≡ true)

abbrev pub HandledAs : EscalationStatus → Escalation → Type 0
HandledAs status x =
    Handled status x.acknowledged_by x.acknowledged_at
      (is_timed_out x.updated_at x.timeout_seconds x.created_at)

abbrev pub IsHandled : Escalation → Type 0
IsHandled x = HandledAs x.status x

handled :
    (from : EscalationStatus) (set : Escalation → Escalation) (id tenant_id : String)
    (seen table : List Escalation)
    → ((x : Escalation) → HandledAs from x → IsHandled (set x))
    → All IsHandled table
    → All IsHandled (move from set id tenant_id seen table).0
handled from set id tenant_id seen table fit h =
    elim (move_cases from set id tenant_id seen table) [
      | inl e ↦ rw e h
      | inr e ↦ rw e (
          All-update_where IsHandled (is_own_in from id tenant_id) set
            (λ x t k.
              let in_from : HandledAs from x = rw (guard_status from id tenant_id x t) at k in
              fit x in_from)
            table h)
    ]

step_escalations-IsHandled :
    (c : EscalationCall) (table : List Escalation)
    → All IsHandled table
    → All IsHandled (step_escalations c table)
unfolding step_escalations acknowledge_escalation resolve_escalation expire_escalations
step_escalations-IsHandled (acknowledge id tenant_id user_id notes now seen) table h =
    handled opened (acknowledged_row user_id notes now) id tenant_id seen table
      (λ x k. (refl, refl)) h
step_escalations-IsHandled (resolve id tenant_id notes now seen) table h =
    handled acknowledged (resolved_row notes now) id tenant_id seen table (λ x k. k) h
step_escalations-IsHandled (create scopes e now) table h = elim (create_cases scopes e now table) [
  | inl same ↦ rw same h
  | inr more ↦ rw more (All-append IsHandled table (open_row e now ∷ []) h ((refl, refl), tt))
]
step_escalations-IsHandled (expire now) table h =
    All-update_where IsHandled (is_overdue now) (expired_row now)
      (λ x o k.
        let (by, at) : HandledAs opened x = rw (overdue_status now x o) at k in
        (by, at, ground arith))
      table h

run_from-IsHandled :
    (cs : List EscalationCall) (table : List Escalation)
    → All IsHandled table
    → All IsHandled (run_escalations cs table)
unfolding run_escalations
run_from-IsHandled [] table h = h
run_from-IsHandled (c ∷ cs) table h =
    run_from-IsHandled cs (step_escalations c table) (step_escalations-IsHandled c table h)

-- In any history that starts with no escalation, every acknowledged or resolved escalation has the
-- person and the time of its acknowledgement, no open or expired one has them, and every expired
-- one has a timeout that was over when it expired.
pub run_escalations-IsHandled : (cs : List EscalationCall) → All IsHandled (run_escalations cs [])
run_escalations-IsHandled cs = run_from-IsHandled cs [] tt
