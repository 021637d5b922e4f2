-- ===== src/Shim/Enforced.antt =====
-- When a check lets a call through.
use loopstorm_guard.Common.{
  ℕ, ◌≡◌, ◌↔◌, refl, sym, ◌∙◌, ap, ◌⊎◌, inl, inr, String, Bool, true, Option, none, some, ◌==◌,
  str_eq, str_eq_iff, if◌then◌else◌, arith, Bool-cases, Option-cases,
}
use loopstorm_guard.Shim.Jcs.{args_hash}
use loopstorm_guard.Shim.Guard.{
  Guard, DecisionRequest, DecisionResponse, DecisionResult, Outcome, allowed, CheckOptions, Engine,
  Sent, answered, let_through, unavailable, send, result_of, handle_decision, open_result,
  check_echo, outcome_of, request_of, counted, check,
}

-- What the engine answers, at once or after one reconnect.
abbrev pub answer_of : Engine → DecisionRequest → Option DecisionResponse
answer_of engine request = elim (engine.first request) [
  | some r ↦ some r
  | none ↦ engine.again request
]

-- The engine has allowed the request with this number of this run, or it is not there and the guard
-- is set to let calls through then.
abbrev pub IsAllowed : Guard → Engine → DecisionRequest → DecisionResult → Type 0
IsAllowed g engine request result =
    ((r : DecisionResponse) × (answer_of engine request ≡ some r)
      × (r.seq ≡ request.seq)
      × (r.run_id ≡ request.run_id)
      × (r.decision ≡ "allow")
      × (result ≡ result_of r))
    ⊎ ((answer_of engine request ≡ none) × (g.fail_open ≡ true) × (result ≡ open_result))

allowed_injective : (a b : DecisionResult) → Path Outcome (allowed a) (allowed b) → a ≡ b
allowed_injective a b e = ground arith

handle_decision_iff :
    (r : DecisionResponse) (result : DecisionResult)
    → (handle_decision r ≡ allowed result) ↔ ((r.decision ≡ "allow") × (result ≡ result_of r))
unfolding handle_decision
handle_decision_iff r result = elim (Bool-cases (str_eq r.decision "allow")) [
  | inl e ↦
      rw (handle_decision, e)
        (
          λ h. ((str_eq_iff r.decision "allow").0 e, sym (allowed_injective _ _ h)),
          λ (d, q). ap allowed (sym q),
        )
  | inr e ↦ (
    λ h. absurd (ground (arith, rw (handle_decision, e) at h)),
    λ (d, q). absurd (ground (arith, (str_eq_iff r.decision "allow").1 d, e)),
  )
]

check_echo_iff :
    (g : Guard) (seq : ℕ) (r : DecisionResponse) (result : DecisionResult)
    → (check_echo g seq r ≡ allowed result)
      ↔ ((r.seq ≡ seq) × (r.run_id ≡ g.run_id) × (r.decision ≡ "allow") × (result ≡ result_of r))
check_echo_iff g seq r result =
    let (to, from) = handle_decision_iff r result in
    let (same, of_same) = str_eq_iff r.run_id g.run_id in
    elim (Bool-cases (r.seq == seq)) [
      | inr e ↦
          (λ h. absurd (ground (arith, rw e at h)), λ (d, q, a, b). absurd (ground (arith, d, e)))
      | inl e ↦ elim (Bool-cases (str_eq r.run_id g.run_id)) [
        | inr t ↦ (
          λ h. absurd (ground (arith, rw (e, t) at h)),
          λ (d, q, a, b). absurd (ground (arith, of_same q, t)),
        )
        | inl t ↦ (
          λ h. let (a, b) = to (rw (e, t) at h) in (ground (arith, e), same t, a, b),
          λ (d, q, a, b). rw (e, t) (from (a, b)),
        )
      ]
    ]

abbrev sent_of : Bool → Option DecisionResponse → Sent
sent_of fail_open (some r) = answered r
sent_of fail_open none = if fail_open then let_through else unavailable

send-answer :
    (fail_open : Bool) (engine : Engine) (request : DecisionRequest)
    → send fail_open engine request ≡ sent_of fail_open (answer_of engine request)
unfolding send
send-answer fail_open engine request = elim (Option-cases (engine.first request)) [
  | inr (r, e) ↦ rw (send, answer_of, e) refl
  | inl e ↦ elim (Option-cases (engine.again request)) [
    | inr (r, t) ↦ rw (send, answer_of, e, t) refl
    | inl t ↦ rw (send, answer_of, e, t) refl
  ]
]

-- What an answer, or none, comes to.
outcome_iff :
    (g : Guard) (seq : ℕ) (result : DecisionResult) (o : Option DecisionResponse)
    → (outcome_of g seq (sent_of g.fail_open o) ≡ allowed result) ↔ (
        ((r : DecisionResponse) × (o ≡ some r)
          × (r.seq ≡ seq)
          × (r.run_id ≡ g.run_id)
          × (r.decision ≡ "allow")
          × (result ≡ result_of r))
        ⊎ ((o ≡ none) × (g.fail_open ≡ true) × (result ≡ open_result)))
outcome_iff g seq result (some r) =
    let (to, from) = check_echo_iff g seq r result in
    (
      λ h. let (a, b, c, d) = to h in inl (r, refl, a, b, c, d),
      elim [
        | inl (r', e, a, b, c, d) ↦
            let same : r' ≡ r = ground (arith, e) in from (rw (← same) (a, b, c, d))
        | inr (e, a, b) ↦ absurd (ground (arith, e))
      ],
    )
outcome_iff g seq result none = elim (Bool-cases g.fail_open) [
  | inl o ↦ (
    λ h. inr (refl, o, sym (allowed_injective _ _ (rw o at h))),
    elim [
      | inl (r, e, a, b, c, d) ↦ absurd (ground (arith, e))
      | inr (e, p, q) ↦ rw o (ap allowed (sym q))
    ],
  )
  | inr o ↦ (
    λ h. absurd (ground (arith, rw o at h)),
    elim [
      | inl (r, e, a, b, c, d) ↦ absurd (ground (arith, e))
      | inr (e, p, q) ↦ absurd (ground (arith, p, o))
    ],
  )
]

-- A check lets a call through exactly when the arguments have a canonical form, and either the
-- engine has answered the request that carries its hash and the next sequence number, at once or
-- after one reconnect, with the same run, the same number and the decision `allow`, or it has not
-- answered and the guard is set to let calls through then.
pub check_allowed_iff :
    (sha256 : String → String) (engine : Engine) (tool : String) (options : CheckOptions)
    (ts : String) (g : Guard) (result : DecisionResult)
    → ((check sha256 engine tool options ts g).1 ≡ allowed result) ↔ (
        (hash : String) × (args_hash sha256 options.args ≡ some hash)
        × IsAllowed g engine (request_of (counted g) tool options hash ts) result)
unfolding check
check_allowed_iff sha256 engine tool options ts g result =
    elim (Option-cases (args_hash sha256 options.args)) [
      | inl e ↦ (
        λ h. absurd (ground (arith, rw (check, e) at h)),
        λ (hash, k, rest). absurd (ground (arith, k, e)),
      )
      | inr (hash, e) ↦
          let request = request_of (counted g) tool options hash ts in
          let (to, from) =
            outcome_iff (counted g) (counted g).seq result (answer_of engine request) in
          let o : (check sha256 engine tool options ts g).1
              ≡ outcome_of (counted g) (counted g).seq
                  (sent_of g.fail_open (answer_of engine request)) =
            rw (check, e, send-answer g.fail_open engine request) refl in
          (
            λ h. (hash, e, to (sym o ∙ h)),
            λ (hash', k, rest).
                o ∙ from (let same : hash' ≡ hash = ground (arith, k, e) in rw same at rest),
          )
    ]
