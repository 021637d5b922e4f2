-- ===== src/Review/Proposals.antt =====
-- Proposals: creation, review, expiry and the list.
use loopstorm_guard.Common.{
  ℕ, ◌-◌, ◌*◌, String, Bool, true, false, ◌&&◌, Option, none, some, List, [], ◌∷◌, ◌++◌, ltb,
  if◌then◌else◌, any, str_eq, length, filter,
}
use loopstorm_guard.Paging.{Page, descending, list_page}
use loopstorm_guard.Review.{not_found, wrong_status, changed_concurrently, Answer, done, refused}
use loopstorm_guard.Review.Table.{first_where, update_where}

pub data ProposalStatus : Type 0 where
  pending : ProposalStatus
  approved : ProposalStatus
  rejected : ProposalStatus
  expired : ProposalStatus

-- `content` stands for the columns that are copied from the input and never read.
pub record Proposal : Type 0 where
  pub id : String
  pub tenant_id : String
  pub proposal_id : String
  pub proposal_type : String
  pub content : String
  pub status : ProposalStatus
  pub reviewed_by : Option String
  pub reviewed_at : Option ℕ
  pub review_notes : Option String
  pub created_at : ℕ
  pub updated_at : ℕ

abbrev pub is_pending : ProposalStatus → Bool
is_pending pending = true
is_pending approved = false
is_pending rejected = false
is_pending expired = false

abbrev pub status_eq : ProposalStatus → ProposalStatus → Bool
status_eq pending pending = true
status_eq approved approved = true
status_eq rejected rejected = true
status_eq expired expired = true
status_eq s t = false

abbrev pub is_own : String → String → Proposal → Bool
is_own id tenant_id p = str_eq p.id id && str_eq p.tenant_id tenant_id

-- The condition of the update: the row is still pending.
abbrev pub is_open_own : String → String → Proposal → Bool
is_open_own id tenant_id p = is_own id tenant_id p && is_pending p.status

-- The columns that a review sets.
abbrev pub reviewed : ProposalStatus → String → Option String → ℕ → Proposal → Proposal
reviewed status user_id notes now p = record p {
  status = status;
  reviewed_by = some user_id;
  reviewed_at = some now;
  review_notes = notes;
  updated_at = now;
}

-- The review of a proposal. `seen` is the table when the row is selected, `table` the table when it
-- is updated; another transaction may have changed it in between.
unfoldable pub review :
    ProposalStatus
    → String
    → String
    → String
    → Option String
    → ℕ
    → List Proposal
    → List Proposal
    → List Proposal × Answer ProposalStatus Proposal
review status id tenant_id user_id notes now seen table =
    elim (first_where (is_own id tenant_id) seen) [
      | none ↦ (table, refused not_found)
      | some existing ↦
          if is_pending existing.status
          then (
            update_where (is_open_own id tenant_id) (reviewed status user_id notes now) table,
            elim (first_where (is_open_own id tenant_id) table) [
              | none ↦ refused changed_concurrently
              | some p ↦ done (reviewed status user_id notes now p)
            ],
          )
          else (table, refused (wrong_status existing.status))
    ]

-- `supervisor.approveProposal`; the notes may be absent.
abbrev pub approve_proposal :
    String
    → String
    → String
    → Option String
    → ℕ
    → List Proposal
    → List Proposal
    → List Proposal × Answer ProposalStatus Proposal
approve_proposal = review approved

-- `supervisor.rejectProposal`; the notes are required.
abbrev pub reject_proposal :
    String
    → String
    → String
    → String
    → ℕ
    → List Proposal
    → List Proposal
    → List Proposal × Answer ProposalStatus Proposal
reject_proposal id tenant_id user_id notes = review rejected id tenant_id user_id (some notes)

-- What the two inserts of supervisor-tools.ts get.
pub record NewProposal : Type 0 where
  pub id : String
  pub tenant_id : String
  pub proposal_id : String
  pub proposal_type : String
  pub content : String

abbrev pub pending_row : NewProposal → ℕ → Proposal
pending_row p now = record {
  id = p.id;
  tenant_id = p.tenant_id;
  proposal_id = p.proposal_id;
  proposal_type = p.proposal_type;
  content = p.content;
  status = pending;
  reviewed_by = none;
  reviewed_at = none;
  review_notes = none;
  created_at = now;
  updated_at = now;
}

abbrev pub learned_row : NewProposal → ℕ → Proposal
learned_row p now = record (pending_row p now) {
  status = approved;
  reviewed_at = some now;
  review_notes = some "Auto-approved learning record";
}

-- The insert fails when the id or the `proposal_id` is taken.
abbrev pub insert_proposal : Proposal → List Proposal → List Proposal × Bool
insert_proposal p table =
    if any (λ q. str_eq q.proposal_id p.proposal_id) table
    then (table, false)
    else if any (λ q. str_eq q.id p.id) table
    then (table, false)
    else (table ++ p ∷ [], true)

-- `requireSupervisorScope`.
abbrev pub has_supervisor_scope : List String → Bool
has_supervisor_scope = any (λ s. str_eq s "supervisor")

-- `supervisorTools.createProposal` and `supervisorTools.recordLearning`.
unfoldable pub create_proposal :
    List String → NewProposal → ℕ → List Proposal → List Proposal × Bool
create_proposal scopes p now table =
    if has_supervisor_scope scopes
    then insert_proposal (pending_row p now) table
    else (table, false)

unfoldable pub record_learning :
    List String → NewProposal → ℕ → List Proposal → List Proposal × Bool
record_learning scopes p now table =
    if has_supervisor_scope scopes
    then insert_proposal (learned_row p now) table
    else (table, false)

abbrev pub proposal_timeout_seconds : ℕ
proposal_timeout_seconds = 86400

abbrev pub is_overdue : ℕ → Proposal → Bool
is_overdue now p = is_pending p.status && ltb p.created_at (now - proposal_timeout_seconds * 1000)

abbrev pub expired_row : ℕ → Proposal → Proposal
expired_row now p = record p { status = expired; updated_at = now }

-- `expireProposals`, with the number of rows that it changes.
unfoldable pub expire_proposals : ℕ → List Proposal → List Proposal × ℕ
expire_proposals now table =
    (update_where (is_overdue now) (expired_row now) table, length (filter (is_overdue now) table))

abbrev has_status : Option ProposalStatus → Proposal → Bool
has_status none p = true
has_status (some s) p = status_eq p.status s

abbrev has_type : Option String → Proposal → Bool
has_type none p = true
has_type (some t) p = str_eq p.proposal_type t

abbrev pub is_listed : String → Option ProposalStatus → Option String → Proposal → Bool
is_listed tenant_id status type p =
    str_eq p.tenant_id tenant_id && (has_status status p && has_type type p)

-- `supervisor.listProposals`.
unfoldable pub list_proposals :
    String → Option ProposalStatus → Option String → ℕ → List Proposal → Option ℕ → Page Proposal
list_proposals tenant_id status type limit table cursor =
    list_page descending (λ p. p.created_at) (is_listed tenant_id status type) limit cursor table
