-- ===== src/Review/EscalationLife.antt =====
-- What any history of operations does to the escalations.
use loopstorm_guard.Common.{
  ℕ, ◌≡◌, ◌⊎◌, inl, inr, refl, String, Bool, true, false, Option, List, [], ◌∷◌, ◌++◌, arith,
  Bool-cases, Option-cases, any, str_eq, ◌∙◌,
}
use loopstorm_guard.Review.Table.{
  first_where, update_where, Grows, Grows-refl, Grows-append, Grows-update_where, Grows-trans,
}
use loopstorm_guard.Review.Proposals.{has_supervisor_scope}
use loopstorm_guard.Review.Escalations.{
  Escalation, EscalationStatus, opened, acknowledged, resolved, expired, status_eq, is_own,
  is_own_in, move, acknowledged_row, resolved_row, acknowledge_escalation, resolve_escalation,
  NewEscalation, open_row, create_escalation, is_overdue, expired_row, expire_escalations,
}

-- A change of the table; `seen` is what the mutation has read before.
pub data EscalationCall : Type 0 where
  acknowledge :
      (id tenant_id user_id : String) (notes : Option String) (now : ℕ) (seen : List Escalation)
      → EscalationCall
  resolve :
      (id tenant_id : String) (notes : Option String) (now : ℕ) (seen : List Escalation)
      → EscalationCall
  create : (scopes : List String) (e : NewEscalation) (now : ℕ) → EscalationCall
  expire : (now : ℕ) → EscalationCall

unfoldable pub step_escalations : EscalationCall → List Escalation → List Escalation
step_escalations (acknowledge id tenant_id user_id notes now seen) table =
    (acknowledge_escalation id tenant_id user_id notes now seen table).0
step_escalations (resolve id tenant_id notes now seen) table =
    (resolve_escalation id tenant_id notes now seen table).0
step_escalations (create scopes e now) table = (create_escalation scopes e now table).0
step_escalations (expire now) table = (expire_escalations now table).0

unfoldable pub run_escalations : List EscalationCall → List Escalation → List Escalation
run_escalations [] table = table
run_escalations (c ∷ cs) table = run_escalations cs (step_escalations c table)

-- The moves of the life cycle, in one or more steps.
abbrev pub leads : EscalationStatus → EscalationStatus → Bool
leads opened acknowledged = true
leads opened resolved = true
leads opened expired = true
leads acknowledged resolved = true
leads s t = false

leads_trans : (a b c : EscalationStatus) → leads a b ≡ true → leads b c ≡ true → leads a c ≡ true
leads_trans opened acknowledged resolved h k = refl
leads_trans opened acknowledged opened h k = cc
leads_trans opened acknowledged acknowledged h k = cc
leads_trans opened acknowledged expired h k = cc
leads_trans opened resolved c h k = cc
leads_trans opened expired c h k = cc
leads_trans opened opened c h k = cc
leads_trans acknowledged resolved c h k = cc
leads_trans acknowledged opened c h k = cc
leads_trans acknowledged acknowledged c h k = cc
leads_trans acknowledged expired c h k = cc
leads_trans resolved b c h k = cc
leads_trans expired b c h k = cc

-- The row is unchanged, or it has moved on in the life cycle and is otherwise the same escalation.
abbrev pub Moves : Escalation → Escalation → Type 0
Moves x y =
    (x ≡ y)
    ⊎ ((leads x.status y.status ≡ true)
        × (y.id ≡ x.id)
        × (y.tenant_id ≡ x.tenant_id)
        × (y.escalation_id ≡ x.escalation_id)
        × (y.severity ≡ x.severity)
        × (y.content ≡ x.content)
        × (y.timeout_seconds ≡ x.timeout_seconds)
        × (y.created_at ≡ x.created_at))

Moves-trans : (x y z : Escalation) → Moves x y → Moves y z → Moves x z
Moves-trans x y z (inl e) k = rw e k
Moves-trans x y z (inr h) (inl e) = rw (← e) (inr h)
Moves-trans x y z (inr (a, b, c, d, e, f, g, h)) (inr (a', b', c', d', e', f', g', h')) = inr (
  leads_trans x.status y.status z.status a a',
  b' ∙ b,
  c' ∙ c,
  d' ∙ d,
  e' ∙ e,
  f' ∙ f,
  g' ∙ g,
  h' ∙ h,
)

pub move_cases :
    (from : EscalationStatus) (set : Escalation → Escalation) (id tenant_id : String)
    (seen table : List Escalation)
    → ((move from set id tenant_id seen table).0 ≡ table)
      ⊎ ((move from set id tenant_id seen table).0
          ≡ update_where (is_own_in from id tenant_id) set table)
move_cases from set id tenant_id seen table =
    elim (Option-cases (first_where (is_own id tenant_id) seen)) [
      | inl e ↦ inl (rw (move, e) refl)
      | inr (p, e) ↦ elim (Bool-cases (status_eq p.status from)) [
        | inl t ↦ inr (rw (move, e, t) refl)
        | inr t ↦ inl (rw (move, e, t) refl)
      ]
    ]

pub create_cases :
    (scopes : List String) (e : NewEscalation) (now : ℕ) (table : List Escalation)
    → ((create_escalation scopes e now table).0 ≡ table)
      ⊎ ((create_escalation scopes e now table).0 ≡ table ++ open_row e now ∷ [])
unfolding create_escalation
create_cases scopes e now table = elim (Bool-cases (has_supervisor_scope scopes)) [
  | inr s ↦ inl (rw (create_escalation, s) refl)
  | inl s ↦ elim (Bool-cases (any (λ x. str_eq x.escalation_id e.escalation_id) table)) [
    | inl t ↦ inl (rw (create_escalation, s, t) refl)
    | inr t ↦ elim (Bool-cases (any (λ x. str_eq x.id e.id) table)) [
      | inl u ↦ inl (rw (create_escalation, s, t, u) refl)
      | inr u ↦ inr (rw (create_escalation, s, t, u) refl)
    ]
  ]
]

status_eq_sound : (a b : EscalationStatus) → status_eq a b ≡ true → a ≡ b
status_eq_sound opened opened h = refl
status_eq_sound acknowledged acknowledged h = refl
status_eq_sound resolved resolved h = refl
status_eq_sound expired expired h = refl
status_eq_sound opened acknowledged h = cc
status_eq_sound opened resolved h = cc
status_eq_sound opened expired h = cc
status_eq_sound acknowledged opened h = cc
status_eq_sound acknowledged resolved h = cc
status_eq_sound acknowledged expired h = cc
status_eq_sound resolved opened h = cc
status_eq_sound resolved acknowledged h = cc
status_eq_sound resolved expired h = cc
status_eq_sound expired opened h = cc
status_eq_sound expired acknowledged h = cc
status_eq_sound expired resolved h = cc

-- The row that the guard of the update has picked is in the status asked for.
pub guard_status :
    (from : EscalationStatus) (id tenant_id : String) (x : Escalation)
    → is_own_in from id tenant_id x ≡ true
    → x.status ≡ from
guard_status from id tenant_id x h = status_eq_sound x.status from (ground arith)

pub overdue_status : (now : ℕ) (x : Escalation) → is_overdue now x ≡ true → x.status ≡ opened
overdue_status now x h = status_eq_sound x.status opened (ground arith)

moved :
    (from : EscalationStatus) (set : Escalation → Escalation) (id tenant_id : String)
    (seen table : List Escalation)
    → ((x : Escalation) → x.status ≡ from → Moves x (set x))
    → Grows Moves table (move from set id tenant_id seen table).0
moved from set id tenant_id seen table allowed =
    elim (move_cases from set id tenant_id seen table) [
      | inl e ↦ rw e (Grows-refl Moves (λ x. inl refl) table)
      | inr e ↦ rw e (
          Grows-update_where Moves (λ x. inl refl) (is_own_in from id tenant_id) set
            (λ x h. allowed x (guard_status from id tenant_id x h)) table)
    ]

step_escalations-Grows :
    (c : EscalationCall) (table : List Escalation) → Grows Moves table (step_escalations c table)
unfolding step_escalations acknowledge_escalation resolve_escalation expire_escalations
step_escalations-Grows (acknowledge id tenant_id user_id notes now seen) table =
    moved opened (acknowledged_row user_id notes now) id tenant_id seen table
      (λ x e. inr (rw e refl, refl, refl, refl, refl, refl, refl, refl))
step_escalations-Grows (resolve id tenant_id notes now seen) table =
    moved acknowledged (resolved_row notes now) id tenant_id seen table
      (λ x e. inr (rw e refl, refl, refl, refl, refl, refl, refl, refl))
step_escalations-Grows (create scopes e now) table = elim (create_cases scopes e now table) [
  | inl same ↦ rw same (Grows-refl Moves (λ x. inl refl) table)
  | inr more ↦ rw more (Grows-append Moves (λ x. inl refl) table (open_row e now ∷ []))
]
step_escalations-Grows (expire now) table =
    Grows-update_where Moves (λ x. inl refl) (is_overdue now) (expired_row now)
      (λ x h. inr (rw (overdue_status now x h) refl, refl, refl, refl, refl, refl, refl, refl))
      table

-- In any history of acknowledgements, resolutions, inserts and expiries no escalation is lost, and
-- each one either stays as it is or moves on in its life cycle, from open to acknowledged to
-- resolved, or from open to expired, keeping its identity, content, timeout and creation time; a
-- resolved or expired escalation never changes again.
pub run_escalations-Grows :
    (cs : List EscalationCall) (table : List Escalation)
    → Grows Moves table (run_escalations cs table)
unfolding run_escalations
run_escalations-Grows [] table = Grows-refl Moves (λ x. inl refl) table
run_escalations-Grows (c ∷ cs) table =
    Grows-trans Moves Moves-trans table (step_escalations c table)
      (run_escalations cs (step_escalations c table)) (step_escalations-Grows c table)
      (run_escalations-Grows cs (step_escalations c table))
