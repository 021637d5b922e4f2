-- ===== src/Review/Listed.antt =====
-- The lists of proposals and of escalations.
use loopstorm_guard.Common.{ℕ, ◌<◌, ◌≡◌, String, Option, none, List, length, filter}
use loopstorm_guard.Paging.{descending, order_by, IsDistinct, follow}
use loopstorm_guard.Paging.Complete.{follow-list_page}
use loopstorm_guard.Paging.Sound.{IsPage, list_page-IsPage}
use loopstorm_guard.Review.Proposals.{Proposal, ProposalStatus, list_proposals}
use loopstorm_guard.Review.Escalations.{Escalation, EscalationStatus, list_escalations}
use loopstorm_guard.Review.Proposals
use loopstorm_guard.Review.Escalations

-- A page of `supervisor.listProposals` has at most `limit` entries, all of the tenant, of the
-- status and the type asked for, and created before the cursor.
pub list_proposals-IsPage :
    (tenant_id : String) (status : Option ProposalStatus) (type : Option String) (limit : ℕ)
    (table : List Proposal) (cursor : Option ℕ)
    → IsPage descending
        (λ p. p.created_at)
        (Proposals.is_listed tenant_id status type)
        limit
        cursor
        (list_proposals tenant_id status type limit table cursor)
unfolding list_proposals
list_proposals-IsPage tenant_id status type limit table cursor =
    list_page-IsPage descending (λ p. p.created_at) (Proposals.is_listed tenant_id status type)
      limit cursor table

-- If the limit is not 0 and no two escalations of the tenant with the status and the severity
-- asked for have one creation time, then a client that may ask more often than there are such
-- escalations gets all of them by following the cursors of `supervisor.listEscalations`, each
-- once, the latest first.
pub list_escalations-follow :
    (tenant_id : String) (status : Option EscalationStatus) (severity : Option String) (limit : ℕ)
    (table : List Escalation) (n : ℕ)
    → 0 < limit
    → IsDistinct descending
        (λ e. e.created_at)
        (filter (Escalations.is_listed tenant_id status severity) table)
    → length (filter (Escalations.is_listed tenant_id status severity) table) < n
    → follow (list_escalations tenant_id status severity limit table) n none
      ≡ order_by descending
          (λ e. e.created_at)
          (filter (Escalations.is_listed tenant_id status severity) table)
unfolding list_escalations
list_escalations-follow tenant_id status severity limit table n positive distinct enough =
    follow-list_page descending (λ e. e.created_at) limit positive
      (Escalations.is_listed tenant_id status severity) table n distinct enough
