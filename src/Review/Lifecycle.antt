-- ===== src/Review/Lifecycle.antt =====
-- What any history of operations does to the proposals and the escalations.
use loopstorm_guard.Common.{
  ℕ, ◌≡◌, ◌⊎◌, inl, inr, refl, String, true, false, Option, none, some, List, [], ◌∷◌, ◌++◌, All,
  All-append, arith, Bool-cases, Option-cases, any, str_eq, is_some,
}
use loopstorm_guard.Review.Table.{
  first_where, update_where, Grows, Grows-refl, Grows-append, Grows-update_where, Grows-trans,
  All-update_where,
}
use loopstorm_guard.Review.Proposals.{
  Proposal, ProposalStatus, pending, approved, rejected, review, approve_proposal, reject_proposal,
  NewProposal, create_proposal, record_learning, expire_proposals, reviewed, is_open_own, is_own,
  is_pending, expired_row, is_overdue, learned_row, pending_row, insert_proposal,
  has_supervisor_scope,
}
use loopstorm_guard.Review.Proposals

-- A change of the table; `seen` is what a review has read before.
pub data ProposalCall : Type 0 where
  approve :
      (id tenant_id user_id : String) (notes : Option String) (now : ℕ) (seen : List Proposal)
      → ProposalCall
  reject : (id tenant_id user_id notes : String) (now : ℕ) (seen : List Proposal) → ProposalCall
  create : (scopes : List String) (p : NewProposal) (now : ℕ) → ProposalCall
  learn : (scopes : List String) (p : NewProposal) (now : ℕ) → ProposalCall
  expire : (now : ℕ) → ProposalCall

unfoldable pub step : ProposalCall → List Proposal → List Proposal
step (approve id tenant_id user_id notes now seen) table =
    (approve_proposal id tenant_id user_id notes now seen table).0
step (reject id tenant_id user_id notes now seen) table =
    (reject_proposal id tenant_id user_id notes now seen table).0
step (create scopes p now) table = (create_proposal scopes p now table).0
step (learn scopes p now) table = (record_learning scopes p now table).0
step (expire now) table = (expire_proposals now table).0

unfoldable pub run : List ProposalCall → List Proposal → List Proposal
run [] table = table
run (c ∷ cs) table = run cs (step c table)

-- The row is unchanged, or it was pending and has been decided, and is otherwise the same proposal.
abbrev pub Evolves : Proposal → Proposal → Type 0
Evolves p q =
    (p ≡ q)
    ⊎ ((is_pending p.status ≡ true)
        × (is_pending q.status ≡ false)
        × (q.id ≡ p.id)
        × (q.tenant_id ≡ p.tenant_id)
        × (q.proposal_id ≡ p.proposal_id)
        × (q.proposal_type ≡ p.proposal_type)
        × (q.content ≡ p.content)
        × (q.created_at ≡ p.created_at))

Evolves-trans : (x y z : Proposal) → Evolves x y → Evolves y z → Evolves x z
Evolves-trans x y z (inl e) k = rw e k
Evolves-trans x y z (inr h) (inl e) = rw (← e) (inr h)
Evolves-trans x y z (inr h) (inr k) = absurd (ground (arith, h.1, k.0))

-- The table when a review has returned.
pub review-cases :
    (status : ProposalStatus) (id tenant_id user_id : String) (notes : Option String) (now : ℕ)
    (seen table : List Proposal)
    → ((review status id tenant_id user_id notes now seen table).0 ≡ table)
      ⊎ ((review status id tenant_id user_id notes now seen table).0
          ≡ update_where (is_open_own id tenant_id) (reviewed status user_id notes now) table)
unfolding review
review-cases status id tenant_id user_id notes now seen table =
    elim (Option-cases (first_where (is_own id tenant_id) seen)) [
      | inl e ↦ inl (rw (review, e) refl)
      | inr (p, e) ↦ elim (Bool-cases (is_pending p.status)) [
        | inl t ↦ inr (rw (review, e, t) refl)
        | inr t ↦ inl (rw (review, e, t) refl)
      ]
    ]

review-Grows :
    (status : ProposalStatus)
    → is_pending status ≡ false
    → (id tenant_id user_id : String) (notes : Option String) (now : ℕ) (seen table : List Proposal)
    → Grows Evolves table (review status id tenant_id user_id notes now seen table).0
review-Grows status final id tenant_id user_id notes now seen table =
    elim (review-cases status id tenant_id user_id notes now seen table) [
      | inl e ↦ rw e (Grows-refl Evolves (λ p. inl refl) table)
      | inr e ↦ rw e (
          Grows-update_where Evolves (λ p. inl refl) (is_open_own id tenant_id)
            (reviewed status user_id notes now)
            (λ p h. inr (ground arith, final, refl, refl, refl, refl, refl, refl)) table)
    ]

insert_proposal-cases :
    (p : Proposal) (table : List Proposal)
    → ((insert_proposal p table).0 ≡ table) ⊎ ((insert_proposal p table).0 ≡ table ++ p ∷ [])
insert_proposal-cases p table =
    elim (Bool-cases (any (λ q. str_eq q.proposal_id p.proposal_id) table)) [
      | inl e ↦ inl (rw e refl)
      | inr e ↦ elim (Bool-cases (any (λ q. str_eq q.id p.id) table)) [
        | inl t ↦ inl (rw (e, t) refl)
        | inr t ↦ inr (rw (e, t) refl)
      ]
    ]

create_proposal-cases :
    (scopes : List String) (p : NewProposal) (now : ℕ) (table : List Proposal)
    → ((create_proposal scopes p now table).0 ≡ table)
      ⊎ ((create_proposal scopes p now table).0 ≡ table ++ pending_row p now ∷ [])
unfolding create_proposal
create_proposal-cases scopes p now table = elim (Bool-cases (has_supervisor_scope scopes)) [
  | inl e ↦ rw (create_proposal, e) (insert_proposal-cases (pending_row p now) table)
  | inr e ↦ inl (rw (create_proposal, e) refl)
]

record_learning-cases :
    (scopes : List String) (p : NewProposal) (now : ℕ) (table : List Proposal)
    → ((record_learning scopes p now table).0 ≡ table)
      ⊎ ((record_learning scopes p now table).0 ≡ table ++ learned_row p now ∷ [])
unfolding record_learning
record_learning-cases scopes p now table = elim (Bool-cases (has_supervisor_scope scopes)) [
  | inl e ↦ rw (record_learning, e) (insert_proposal-cases (learned_row p now) table)
  | inr e ↦ inl (rw (record_learning, e) refl)
]

grown :
    (p : Proposal) (table table' : List Proposal)
    → (table' ≡ table) ⊎ (table' ≡ table ++ p ∷ [])
    → Grows Evolves table table'
grown p table table' (inl e) = rw e (Grows-refl Evolves (λ q. inl refl) table)
grown p table table' (inr e) = rw e (Grows-append Evolves (λ q. inl refl) table (p ∷ []))

step-Grows : (c : ProposalCall) (table : List Proposal) → Grows Evolves table (step c table)
unfolding step expire_proposals
step-Grows (approve id tenant_id user_id notes now seen) table =
    review-Grows approved refl id tenant_id user_id notes now seen table
step-Grows (reject id tenant_id user_id notes now seen) table =
    review-Grows rejected refl id tenant_id user_id (some notes) now seen table
step-Grows (create scopes p now) table =
    grown (pending_row p now) table _ (create_proposal-cases scopes p now table)
step-Grows (learn scopes p now) table =
    grown (learned_row p now) table _ (record_learning-cases scopes p now table)
step-Grows (expire now) table =
    Grows-update_where Evolves (λ p. inl refl) (is_overdue now) (expired_row now)
      (λ p h. inr (ground arith, refl, refl, refl, refl, refl, refl, refl)) table

-- In any history of reviews, inserts and expiries no proposal is lost, and each one either stays as
-- it is or goes from pending to one decided status, keeping its identity and its content; a decided
-- proposal never changes again.
pub run-Grows :
    (cs : List ProposalCall) (table : List Proposal) → Grows Evolves table (run cs table)
unfolding run
run-Grows [] table = Grows-refl Evolves (λ p. inl refl) table
run-Grows (c ∷ cs) table =
    Grows-trans Evolves Evolves-trans table (step c table) (run cs (step c table))
      (step-Grows c table) (run-Grows cs (step c table))

-- The columns of a review fit the status: they are null in a pending and in an expired proposal,
-- and a decided one has its time of review.
abbrev pub Fits : ProposalStatus → Option String → Option ℕ → Type 0
Fits pending by at = (by ≡ none) × (at ≡ none)
Fits approved by at = is_some at ≡ true
Fits rejected by at = (is_some by ≡ true) × (is_some at ≡ true)
Fits Proposals.expired by at = (by ≡ none) × (at ≡ none)

abbrev pub IsConsistent : Proposal → Type 0
IsConsistent p = Fits p.status p.reviewed_by p.reviewed_at

review-IsConsistent :
    (status : ProposalStatus)
    → ((user_id : String) (now : ℕ) → Fits status (some user_id) (some now))
    → (id tenant_id user_id : String) (notes : Option String) (now : ℕ) (seen table : List Proposal)
    → All IsConsistent table
    → All IsConsistent (review status id tenant_id user_id notes now seen table).0
review-IsConsistent status fit id tenant_id user_id notes now seen table h =
    elim (review-cases status id tenant_id user_id notes now seen table) [
      | inl e ↦ rw e h
      | inr e ↦ rw e (
          All-update_where IsConsistent (is_open_own id tenant_id)
            (reviewed status user_id notes now) (λ p t k. fit user_id now) table h)
    ]

grown-IsConsistent :
    (p : Proposal) (table table' : List Proposal)
    → IsConsistent p
    → (table' ≡ table) ⊎ (table' ≡ table ++ p ∷ [])
    → All IsConsistent table
    → All IsConsistent table'
grown-IsConsistent p table table' ok (inl e) h = rw e h
grown-IsConsistent p table table' ok (inr e) h =
    rw e (All-append IsConsistent table (p ∷ []) h (ok, tt))

expired-Fits :
    (status : ProposalStatus) (by : Option String) (at : Option ℕ)
    → is_pending status ≡ true
    → Fits status by at
    → Fits Proposals.expired by at
expired-Fits pending by at t h = h
expired-Fits approved by at t h = cc
expired-Fits rejected by at t h = cc
expired-Fits Proposals.expired by at t h = cc

step-IsConsistent :
    (c : ProposalCall) (table : List Proposal)
    → All IsConsistent table
    → All IsConsistent (step c table)
unfolding step expire_proposals
step-IsConsistent (approve id tenant_id user_id notes now seen) table h =
    review-IsConsistent approved (λ u n. refl) id tenant_id user_id notes now seen table h
step-IsConsistent (reject id tenant_id user_id notes now seen) table h =
    review-IsConsistent rejected (λ u n. (refl, refl)) id tenant_id user_id (some notes) now seen
      table h
step-IsConsistent (create scopes p now) table h =
    grown-IsConsistent (pending_row p now) table _ (refl, refl)
      (create_proposal-cases scopes p now table) h
step-IsConsistent (learn scopes p now) table h =
    grown-IsConsistent (learned_row p now) table _ refl (record_learning-cases scopes p now table) h
step-IsConsistent (expire now) table h =
    All-update_where IsConsistent (is_overdue now) (expired_row now)
      (λ p t k. expired-Fits p.status p.reviewed_by p.reviewed_at (ground arith) k) table h

run_from-IsConsistent :
    (cs : List ProposalCall) (table : List Proposal)
    → All IsConsistent table
    → All IsConsistent (run cs table)
unfolding run
run_from-IsConsistent [] table h = h
run_from-IsConsistent (c ∷ cs) table h =
    run_from-IsConsistent cs (step c table) (step-IsConsistent c table h)

-- In any history that starts with no proposal, no pending and no expired proposal has a reviewer or
-- a time of review, every approved one has a time of review, and every rejected one has both.
pub run-IsConsistent : (cs : List ProposalCall) → All IsConsistent (run cs [])
run-IsConsistent cs = run_from-IsConsistent cs [] tt
