-- ===== src/Review/Decisions.antt =====
-- When a review is accepted, and whom it concerns.
use loopstorm_guard.Common.{
  ℕ, ◌≡◌, ◌≢◌, inl, inr, refl, sym, ◌∙◌, String, true, false, Option, none, some, List, arith,
  Bool-cases, Option-cases, filter, not,
}
use loopstorm_guard.Review.{Answer, done}
use loopstorm_guard.Review.Lifecycle.{review-cases}
use loopstorm_guard.Review.Table.{
  first_where, update_where, first_where-update_where, filter-update_where_kept,
}
use loopstorm_guard.Review.Proposals.{
  Proposal, ProposalStatus, review, reviewed, is_open_own, is_own, is_pending,
}

done_injective : (p q : Proposal) → Path (Answer ProposalStatus Proposal) (done p) (done q) → p ≡ q
done_injective p q e = ground arith

module _ (status : ProposalStatus) (id tenant_id user_id : String) (notes : Option String)
    (now : ℕ) where
  review-done :
      (seen table : List Proposal) (p q : Proposal)
      → first_where (is_own id tenant_id) seen ≡ some p
      → is_pending p.status ≡ true
      → first_where (is_open_own id tenant_id) table ≡ some q
      → (review status id tenant_id user_id notes now seen table).1
        ≡ done (reviewed status user_id notes now q)
  unfolding review
  review-done seen table p q found open_seen open_now = rw (review, found, open_seen, open_now) refl

  review-late :
      (seen table : List Proposal) (r : Proposal)
      → first_where (is_open_own id tenant_id) table ≡ none
      → (review status id tenant_id user_id notes now seen table).1 ≢ done r
  unfolding review
  review-late seen table r closed h = elim (Option-cases (first_where (is_own id tenant_id) seen)) [
    | inl e ↦ ground (arith, rw (review, e) at h)
    | inr (p, e) ↦ elim (Bool-cases (is_pending p.status)) [
      | inl t ↦ ground (arith, rw (review, e, t, closed) at h)
      | inr t ↦ ground (arith, rw (review, e, t) at h)
    ]
  ]

  review-changed :
      (seen table : List Proposal) (r : Proposal)
      → (review status id tenant_id user_id notes now seen table).1 ≡ done r
      → (review status id tenant_id user_id notes now seen table).0
        ≡ update_where (is_open_own id tenant_id) (reviewed status user_id notes now) table
  unfolding review
  review-changed seen table r h = elim (Option-cases (first_where (is_own id tenant_id) seen)) [
    | inl e ↦ absurd (ground (arith, rw (review, e) at h))
    | inr (p, e) ↦ elim (Bool-cases (is_pending p.status)) [
      | inl t ↦ rw (review, e, t) refl
      | inr t ↦ absurd (ground (arith, rw (review, e, t) at h))
    ]
  ]

  review-row :
      (seen table : List Proposal) (r q : Proposal)
      → (review status id tenant_id user_id notes now seen table).1 ≡ done r
      → first_where (is_open_own id tenant_id) table ≡ some q
      → r ≡ reviewed status user_id notes now q
  unfolding review
  review-row seen table r q h open_now =
      elim (Option-cases (first_where (is_own id tenant_id) seen)) [
        | inl e ↦ absurd (ground (arith, rw (review, e) at h))
        | inr (p, e) ↦ elim (Bool-cases (is_pending p.status)) [
          | inl t ↦
              let same : done (reviewed status user_id notes now q) ≡ done r =
                sym (review-done seen table p q e t open_now) ∙ h in
              sym (done_injective _ _ same)
          | inr t ↦ absurd (ground (arith, rw (review, e, t) at h))
        ]
      ]

  -- If a review succeeds, then a pending proposal of the tenant had the id in the table at the time
  -- of the update, whatever was read before, and the review returns that proposal with the status,
  -- the reviewer, the time and the notes set.
  pub review-only_open :
      (seen table : List Proposal) (r : Proposal)
      → (review status id tenant_id user_id notes now seen table).1 ≡ done r
      → (q : Proposal) × (first_where (is_open_own id tenant_id) table ≡ some q)
        × (r ≡ reviewed status user_id notes now q)
  review-only_open seen table r h =
      elim (Option-cases (first_where (is_open_own id tenant_id) table)) [
        | inl e ↦ absurd (review-late seen table r e h)
        | inr (q, e) ↦ (q, e, review-row seen table r q h e)
      ]

  -- A review leaves all the proposals of other tenants and of other ids as they are, whether it
  -- succeeds or not.
  pub review-others :
      (seen table : List Proposal)
      → filter
          (λ p. not (is_own id tenant_id p))
          (review status id tenant_id user_id notes now seen table).0
        ≡ filter (λ p. not (is_own id tenant_id p)) table
  review-others seen table = elim (review-cases status id tenant_id user_id notes now seen table) [
    | inl e ↦ rw e refl
    | inr e ↦ rw e (
        filter-update_where_kept (is_open_own id tenant_id) (λ p. not (is_own id tenant_id p))
          (reviewed status user_id notes now) (λ p h. ground arith) (λ p h. ground arith) table)
  ]

-- Of two reviews of one proposal, at most one succeeds, in whatever order they have read the table:
-- after a review that has succeeded, with a status other than pending, no review of the same tenant
-- and id succeeds on the table that it leaves, even if it has read the table before.
pub second_review-refused :
    (status : ProposalStatus)
    → is_pending status ≡ false
    → (id tenant_id user_id : String) (notes : Option String) (now : ℕ) (seen table : List Proposal)
      (r : Proposal)
    → (review status id tenant_id user_id notes now seen table).1 ≡ done r
    → (status' : ProposalStatus) (user_id' : String) (notes' : Option String) (now' : ℕ)
      (seen' : List Proposal) (r' : Proposal)
    → (review status' id tenant_id user_id' notes' now' seen'
        (review status id tenant_id user_id notes now seen table).0).1
      ≢ done r'
second_review-refused status final id tenant_id user_id notes now seen table r h status' user_id'
      notes' now' seen' r' =
    review-late status' id tenant_id user_id' notes' now' seen' _ r' (
      rw (review-changed status id tenant_id user_id notes now seen table r h) (
        first_where-update_where (is_open_own id tenant_id) (reviewed status user_id notes now)
          (λ p t. ground (arith, final)) table))
