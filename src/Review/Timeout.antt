-- ===== src/Review/Timeout.antt =====
-- `runTimeoutCheck` of packages/backend/src/jobs/timeout-checker.ts, when the database answers. The
-- two updates concern different tables, so their order does not matter.
use mathlib.Core.Path.{subst}
use loopstorm_guard.Common.{
  sym, ℕ, suc, ◌+◌, ◌*◌, ◌<◌, ◌≡◌, ◌↔◌, ◌⊎◌, inl, inr, refl, Bool, true, some, List, [], ◌∷◌,
  length, filter, arith, Bool-cases,
}
use loopstorm_guard.Review.Table.{update_where}
use loopstorm_guard.Review.Proposals.{Proposal, pending, expire_proposals}
use loopstorm_guard.Review.Escalations.{Escalation, opened, expire_escalations}
use loopstorm_guard.Review.Proposals
use loopstorm_guard.Review.Escalations

pub record TimeoutCheckResult : Type 0 where
  pub expired_proposals : ℕ
  pub expired_escalations : ℕ

pub record ReviewDb : Type 0 where
  pub proposals : List Proposal
  pub escalations : List Escalation

unfoldable pub run_timeout_check : ℕ → ReviewDb → ReviewDb × TimeoutCheckResult
unfolding expire_proposals expire_escalations
run_timeout_check now db =
    let ps = expire_proposals now db.proposals in
    let es = expire_escalations now db.escalations in
    (
      record { proposals = ps.0; escalations = es.0 },
      record { expired_proposals = ps.1; expired_escalations = es.1 },
    )

-- A proposal that has been pending for more than 24 hours.
abbrev pub IsStale : ℕ → Proposal → Type 0
IsStale now p = (p.status ≡ pending) × (p.created_at + 86_400_000 < now)

-- An open escalation whose own time is over; one without a timeout never is.
abbrev pub IsLate : ℕ → Escalation → Type 0
IsLate now e =
    (e.status ≡ opened)
    × ((seconds : ℕ) × (e.timeout_seconds ≡ some seconds) × (e.created_at + 1000 * seconds < now))

-- The rows of the second table are those of the first, where exactly the `n` rows that are `Due` are
-- changed, by `f`.
abbrev pub Changes : {A : Type 0} → (A → Type 0) → (A → A) → List A → List A → ℕ → Type 0
Changes Due f [] [] n = n ≡ 0
Changes Due f [] (y ∷ ys) n = ⊥
Changes Due f (x ∷ xs) [] n = ⊥
Changes Due f (x ∷ xs) (y ∷ ys) n =
    (Due x × (y ≡ f x) × ((m : ℕ) × (n ≡ suc m) × Changes Due f xs ys m))
    ⊎ ((¬ Due x) × (y ≡ x) × Changes Due f xs ys n)

update_where-Changes :
    {A : Type 0} (Due : A → Type 0) (test : A → Bool) (f : A → A)
    → ((x : A) → (test x ≡ true) ↔ Due x)
    → (xs : List A) → Changes Due f xs (update_where test f xs) (length (filter test xs))
unfolding update_where
update_where-Changes Due test f meets [] = refl
update_where-Changes Due test f meets (x ∷ xs) =
    let rest = update_where-Changes Due test f meets xs in
    elim (Bool-cases (test x)) [
      | inl e ↦
          inl ((meets x).0 e, rw (e) refl, (length (filter test xs), rw (filter, e) refl, rest))
      | inr e ↦
          let same : length (filter test (x ∷ xs)) ≡ length (filter test xs) =
            rw (filter, e) refl in
          inr (
            λ due. absurd (cc ((meets x).1 due, e)),
            rw (e) refl,
            subst (λ n. Changes Due f xs (update_where test f xs) n) (sym same) rest,
          )
    ]

is_overdue-IsStale : (now : ℕ) (p : Proposal) → (Proposals.is_overdue now p ≡ true) ↔ IsStale now p
is_overdue-IsStale now p = ground arith

is_overdue-IsLate :
    (now : ℕ) (e : Escalation) → (Escalations.is_overdue now e ≡ true) ↔ IsLate now e
is_overdue-IsLate now e = ground arith

-- What a check does to the two tables, and what it returns.
pub record IsSettled (now : ℕ) (before after : ReviewDb) (result : TimeoutCheckResult)
    : Type 0 where
  pub proposals_changed :
      Changes
        (IsStale now)
        (λ p. record p { status = Proposals.expired; updated_at = now })
        before.proposals
        after.proposals
        result.expired_proposals
  pub escalations_changed :
      Changes
        (IsLate now)
        (λ e. record e { status = Escalations.expired; updated_at = now })
        before.escalations
        after.escalations
        result.expired_escalations

-- A check expires exactly the proposals that have been pending for more than 24 hours and exactly
-- the open escalations whose own timeout is over, leaves all other rows as they are, and returns how
-- many of each it has expired.
pub run_timeout_check-IsSettled :
    (now : ℕ) (db : ReviewDb)
    → IsSettled now db (run_timeout_check now db).0 (run_timeout_check now db).1
unfolding run_timeout_check expire_proposals expire_escalations
run_timeout_check-IsSettled now db = record {
  proposals_changed =
      update_where-Changes (IsStale now) (Proposals.is_overdue now) (Proposals.expired_row now)
        (is_overdue-IsStale now) db.proposals;
  escalations_changed =
      update_where-Changes (IsLate now) (Escalations.is_overdue now) (Escalations.expired_row now)
        (is_overdue-IsLate now) db.escalations;
}
