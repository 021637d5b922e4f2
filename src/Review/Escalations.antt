-- ===== src/Review/Escalations.antt =====
-- Escalations: creation, acknowledgement, resolution, expiry and the list.
use loopstorm_guard.Common.{
  ℕ, ◌*◌, ◌+◌, String, Bool, true, false, ◌&&◌, Option, none, some, List, [], ◌∷◌, ◌++◌, ltb,
  if◌then◌else◌, any, str_eq, length, filter,
}
use loopstorm_guard.Paging.{Page, descending, list_page}
use loopstorm_guard.Review.{not_found, wrong_status, changed_concurrently, Answer, done, refused}
use loopstorm_guard.Review.Table.{first_where, update_where}
use loopstorm_guard.Review.Proposals.{has_supervisor_scope}

pub data EscalationStatus : Type 0 where
  opened : EscalationStatus
  acknowledged : EscalationStatus
  resolved : EscalationStatus
  expired : EscalationStatus

-- `content` stands for the columns that are copied from the input and never read.
pub record Escalation : Type 0 where
  pub id : String
  pub tenant_id : String
  pub escalation_id : String
  pub severity : String
  pub content : String
  pub timeout_seconds : Option ℕ
  pub status : EscalationStatus
  pub acknowledged_by : Option String
  pub acknowledged_at : Option ℕ
  pub resolution_notes : Option String
  pub created_at : ℕ
  pub updated_at : ℕ

abbrev pub status_eq : EscalationStatus → EscalationStatus → Bool
status_eq opened opened = true
status_eq acknowledged acknowledged = true
status_eq resolved resolved = true
status_eq expired expired = true
status_eq s t = false

abbrev pub is_own : String → String → Escalation → Bool
is_own id tenant_id e = str_eq e.id id && str_eq e.tenant_id tenant_id

abbrev pub is_own_in : EscalationStatus → String → String → Escalation → Bool
is_own_in status id tenant_id e = is_own id tenant_id e && status_eq e.status status

-- The select, the test of the status and the guarded update that both mutations are made of.
abbrev pub move :
    EscalationStatus
    → (Escalation → Escalation)
    → String
    → String
    → List Escalation
    → List Escalation
    → List Escalation × Answer EscalationStatus Escalation
move from set id tenant_id seen table = elim (first_where (is_own id tenant_id) seen) [
  | none ↦ (table, refused not_found)
  | some existing ↦
      if status_eq existing.status from
      then (
        update_where (is_own_in from id tenant_id) set table,
        elim (first_where (is_own_in from id tenant_id) table) [
          | none ↦ refused changed_concurrently
          | some e ↦ done (set e)
        ],
      )
      else (table, refused (wrong_status existing.status))
]

abbrev pub acknowledged_row : String → Option String → ℕ → Escalation → Escalation
acknowledged_row user_id notes now e = record e {
  status = acknowledged;
  acknowledged_by = some user_id;
  acknowledged_at = some now;
  resolution_notes = notes;
  updated_at = now;
}

abbrev pub resolved_row : Option String → ℕ → Escalation → Escalation
resolved_row notes now e = record e {
  status = resolved;
  resolution_notes = notes;
  updated_at = now;
}

-- `supervisor.acknowledgeEscalation`.
unfoldable pub acknowledge_escalation :
    String
    → String
    → String
    → Option String
    → ℕ
    → List Escalation
    → List Escalation
    → List Escalation × Answer EscalationStatus Escalation
acknowledge_escalation id tenant_id user_id notes now =
    move opened (acknowledged_row user_id notes now) id tenant_id

-- `supervisor.resolveEscalation`.
unfoldable pub resolve_escalation :
    String
    → String
    → Option String
    → ℕ
    → List Escalation
    → List Escalation
    → List Escalation × Answer EscalationStatus Escalation
resolve_escalation id tenant_id notes now = move acknowledged (resolved_row notes now) id tenant_id

pub record NewEscalation : Type 0 where
  pub id : String
  pub tenant_id : String
  pub escalation_id : String
  pub severity : String
  pub content : String
  pub timeout_seconds : Option ℕ

abbrev pub open_row : NewEscalation → ℕ → Escalation
open_row e now = record {
  id = e.id;
  tenant_id = e.tenant_id;
  escalation_id = e.escalation_id;
  severity = e.severity;
  content = e.content;
  timeout_seconds = e.timeout_seconds;
  status = opened;
  acknowledged_by = none;
  acknowledged_at = none;
  resolution_notes = none;
  created_at = now;
  updated_at = now;
}

-- `supervisorTools.createEscalation`. The insert fails when the id or the `escalation_id` is taken.
unfoldable pub create_escalation :
    List String → NewEscalation → ℕ → List Escalation → List Escalation × Bool
create_escalation scopes e now table =
    if has_supervisor_scope scopes
    then if any (λ x. str_eq x.escalation_id e.escalation_id) table
      then (table, false)
      else if any (λ x. str_eq x.id e.id) table
      then (table, false)
      else (table ++ open_row e now ∷ [], true)
    else (table, false)

-- An escalation without a timeout never expires.
abbrev pub is_timed_out : ℕ → Option ℕ → ℕ → Bool
is_timed_out now none created_at = false
is_timed_out now (some t) created_at = ltb (created_at + t * 1000) now

abbrev pub is_overdue : ℕ → Escalation → Bool
is_overdue now e = status_eq e.status opened && is_timed_out now e.timeout_seconds e.created_at

abbrev pub expired_row : ℕ → Escalation → Escalation
expired_row now e = record e { status = expired; updated_at = now }

-- `expireEscalations`, with the number of rows that it changes.
unfoldable pub expire_escalations : ℕ → List Escalation → List Escalation × ℕ
expire_escalations now table =
    (update_where (is_overdue now) (expired_row now) table, length (filter (is_overdue now) table))

abbrev has_status : Option EscalationStatus → Escalation → Bool
has_status none e = true
has_status (some s) e = status_eq e.status s

abbrev has_severity : Option String → Escalation → Bool
has_severity none e = true
has_severity (some s) e = str_eq e.severity s

abbrev pub is_listed : String → Option EscalationStatus → Option String → Escalation → Bool
is_listed tenant_id status severity e =
    str_eq e.tenant_id tenant_id && (has_status status e && has_severity severity e)

-- `supervisor.listEscalations`.
unfoldable pub list_escalations :
    String
    → Option EscalationStatus
    → Option String
    → ℕ
    → List Escalation
    → Option ℕ
    → Page Escalation
list_escalations tenant_id status severity limit table cursor =
    list_page descending (λ e. e.created_at) (is_listed tenant_id status severity) limit cursor
      table
