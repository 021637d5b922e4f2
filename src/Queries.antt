-- ===== src/Queries.antt =====
-- The reads of packages/backend/src/trpc/routers/runs.ts and verify.ts. A row of `runs` stands with
-- its `created_at`, in milliseconds.
mod Fetch
mod Verified
mod Listed
mod Tests
use loopstorm_guard.Common.{
  ℕ, zero, suc, ◌+◌, String, Bool, true, ◌&&◌, Option, none, some, List, [], ◌∷◌, ◌++◌, map, ltb,
  if◌then◌else◌, length, take, filter, get_last?, str_eq,
}
use loopstorm_guard.ChainVerify.{ChainVerifyResult, verify_chain}
use loopstorm_guard.Paging.{Page, ascending, descending, order_by, list_page}
use loopstorm_guard.Ingest.Store.{RunRow, EventRow, Db, find_run}
use loopstorm_guard.Ingest.Chained.{chain_event}

pub record RunEntry : Type 0 where
  pub row : RunRow
  pub created_at : ℕ

-- The columns that leave the backend: all but `last_hash`.
abbrev pub public_row : RunRow → RunRow
public_row r = record r { last_hash = none }

abbrev pub public_entry : RunEntry → RunEntry
public_entry e = record e { row = public_row e.row }

abbrev pub has_status : Option String → String → Bool
has_status none s = true
has_status (some t) s = str_eq s t

-- The rows that `runs.list` may show.
abbrev pub is_listed : String → Option String → RunEntry → Bool
is_listed tenant_id status e = str_eq e.row.tenant_id tenant_id && has_status status e.row.status

-- `runs.list`.
unfoldable pub list_runs : String → Option String → ℕ → List RunEntry → Option ℕ → Page RunEntry
list_runs tenant_id status limit table cursor =
    list_page descending (λ e. e.created_at) (is_listed tenant_id status) limit cursor
      (map public_entry table)

-- `runs.get`.
unfoldable pub get_run : String → String → List RunRow → Option RunRow
get_run run_id tenant_id rows = elim (find_run run_id tenant_id rows) [
  | none ↦ none
  | some r ↦ some (public_row r)
]

-- An empty `event_type` is no filter.
abbrev pub has_type : Option String → EventRow → Bool
has_type none e = true
has_type (some t) e = if str_eq t "" then true else str_eq e.event.event_type t

abbrev pub is_event_of : String → String → EventRow → Bool
is_event_of run_id tenant_id e = str_eq e.run_id run_id && str_eq e.tenant_id tenant_id

-- `runs.getEvents`.
unfoldable pub get_events : String → String → Option String → ℕ → Db → Option ℕ → Page EventRow
get_events run_id tenant_id event_type limit db cursor = elim (find_run run_id tenant_id db.runs) [
  | none ↦ record { items = []; next_cursor = none }
  | some r ↦
      list_page ascending (λ e. e.event.seq)
        (λ e. is_event_of run_id tenant_id e && has_type event_type e) limit cursor db.events
]

abbrev pub events_page_size : ℕ
events_page_size = 1000

-- One page of the loop of `verify.chain`.
unfoldable pub fetch_page : String → String → ℕ → ℕ → List EventRow → List EventRow
fetch_page run_id tenant_id size last_seen events = take size (
    order_by ascending (λ e. e.event.seq)
      (filter (λ e. is_event_of run_id tenant_id e && ltb last_seen e.event.seq) events))

abbrev last_seq_of : ℕ → List EventRow → ℕ
last_seq_of seen page = elim (get_last? page) [ none ↦ seen | some e ↦ e.event.seq ]

-- The loop; `none` when the fuel does not suffice.
unfoldable pub fetch_events : String → String → ℕ → ℕ → ℕ → List EventRow → Option (List EventRow)
fetch_events run_id tenant_id size zero last_seen events = none
fetch_events run_id tenant_id size (suc n) last_seen events =
    let page = fetch_page run_id tenant_id size last_seen events in
    let rest = fetch_events run_id tenant_id size n (last_seq_of last_seen page) events in
    if ltb (length page) size
    then some page
    else elim rest [ none ↦ none | some later ↦ some (page ++ later) ]

pub data VerifyResponse : Type 0 where
  run_not_found : VerifyResponse
  run_has_no_events : VerifyResponse
  checked : (result : ChainVerifyResult) → VerifyResponse

module _ (sha256 : String → String) where
  abbrev response_of : List EventRow → VerifyResponse
  response_of [] = run_has_no_events
  response_of (e ∷ es) = checked (verify_chain sha256 (map chain_event (e ∷ es)))

  -- `verify.chain`, with fuel `n` for its loop.
  unfoldable pub verify_run : ℕ → String → String → Db → Option VerifyResponse
  verify_run n run_id tenant_id db = elim (find_run run_id tenant_id db.runs) [
    | none ↦ some run_not_found
    | some r ↦ elim (fetch_events run_id tenant_id events_page_size n 0 db.events) [
      | none ↦ none
      | some all ↦ some (response_of all)
    ]
  ]
