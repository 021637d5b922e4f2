-- ===== src/Spans/Errors.antt =====
-- Which events have a span with the status ERROR.
use loopstorm_guard.Common.{
  ◌≡◌, ◌≢◌, ◌↔◌, inl, inr, refl, String, true, Option, none, some, arith, str_eq, str_eq_iff,
  opt_str_eq_iff, Bool-cases, opt_str_eq, if◌then◌else◌, ap,
}
use loopstorm_guard.Spans.{
  error, failed, decision_to_span_status, event_type_to_span_status, span_status_for_event,
}

-- The failures that a span reports.
pub data IsFailure (event_type : String) (decision run_status : Option String) : Type 0 where
  denied :
      event_type ≡ "policy_decision"
      → decision ≡ some "deny"
      → IsFailure event_type decision run_status
  killed :
      event_type ≡ "policy_decision"
      → decision ≡ some "kill"
      → IsFailure event_type decision run_status
  exceeded : event_type ≡ "budget_exceeded" → IsFailure event_type decision run_status
  not_completed :
      event_type ≡ "run_ended"
      → run_status ≢ some "completed"
      → IsFailure event_type decision run_status

type_error :
    (event_type : String) (decision run_status : Option String)
    → (event_type_to_span_status event_type run_status).code ≡ error
    → IsFailure event_type decision run_status
unfolding event_type_to_span_status
type_error event_type decision run_status h = elim (Bool-cases (str_eq event_type "run_ended")) [
  | inl e ↦ not_completed ((str_eq_iff event_type "run_ended").0 e) (λ c.
      let test : opt_str_eq run_status (some "completed") ≡ true =
        (opt_str_eq_iff run_status (some "completed")).1 c in
      ground arith)
  | inr e ↦ elim (Bool-cases (str_eq event_type "budget_exceeded")) [
    | inl t ↦ exceeded ((str_eq_iff event_type "budget_exceeded").0 t)
    | inr t ↦ absurd (ground arith)
  ]
]

decision_error :
    (event_type decision : String) (reason run_status : Option String)
    → event_type ≡ "policy_decision"
    → (decision_to_span_status decision reason).code ≡ error
    → IsFailure event_type (some decision) run_status
unfolding decision_to_span_status
decision_error event_type decision reason run_status p h =
    elim (Bool-cases (str_eq decision "deny")) [
      | inl e ↦ denied p (ap some ((str_eq_iff decision "deny").0 e))
      | inr e ↦ elim (Bool-cases (str_eq decision "kill")) [
        | inl t ↦ killed p (ap some ((str_eq_iff decision "kill").0 t))
        | inr t ↦ absurd (ground arith)
      ]
    ]

error-IsFailure :
    (event_type : String) (decision reason run_status : Option String)
    → (span_status_for_event event_type decision reason run_status).code ≡ error
    → IsFailure event_type decision run_status
unfolding span_status_for_event
error-IsFailure event_type none reason run_status h = type_error event_type none run_status h
error-IsFailure event_type (some decision) reason run_status h =
    elim (Bool-cases (str_eq event_type "policy_decision")) [
      | inl e ↦
          decision_error event_type decision reason run_status
            ((str_eq_iff event_type "policy_decision").0 e) (rw (e, if◌then◌else◌) at h)
      | inr e ↦ type_error event_type (some decision) run_status (rw (e, if◌then◌else◌) at h)
    ]

failed-error : (reason : Option String) → (failed reason).code ≡ error
failed-error none = refl
failed-error (some r) = refl

not_completed-error :
    (run_status : Option String)
    → run_status ≢ some "completed"
    → (event_type_to_span_status "run_ended" run_status).code ≡ error
unfolding event_type_to_span_status
not_completed-error run_status n = elim (Bool-cases (opt_str_eq run_status (some "completed"))) [
  | inl e ↦ absurd (n ((opt_str_eq_iff run_status (some "completed")).0 e))
  | inr e ↦ rw e refl
]

IsFailure-error :
    (event_type : String) (decision reason run_status : Option String)
    → IsFailure event_type decision run_status
    → (span_status_for_event event_type decision reason run_status).code ≡ error
unfolding span_status_for_event decision_to_span_status event_type_to_span_status
IsFailure-error event_type decision reason run_status (denied p d) = rw (p, d) (failed-error reason)
IsFailure-error event_type decision reason run_status (killed p d) = rw (p, d) (failed-error reason)
IsFailure-error event_type none reason run_status (exceeded p) = rw p refl
IsFailure-error event_type (some d) reason run_status (exceeded p) = rw p refl
IsFailure-error event_type none reason run_status (not_completed p n) =
    rw p (not_completed-error run_status n)
IsFailure-error event_type (some d) reason run_status (not_completed p n) =
    rw p (not_completed-error run_status n)

-- A span has the status ERROR exactly when its event is a policy decision to deny or to kill, an
-- exceeded budget, or the end of a run that was not completed.
pub span_status_error_iff :
    (event_type : String) (decision reason run_status : Option String)
    → ((span_status_for_event event_type decision reason run_status).code ≡ error)
      ↔ IsFailure event_type decision run_status
span_status_error_iff event_type decision reason run_status = (
  error-IsFailure event_type decision reason run_status,
  IsFailure-error event_type decision reason run_status,
)
