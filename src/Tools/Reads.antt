-- ===== src/Tools/Reads.antt =====
-- `supervisorTools.getRunEvents`, `getPolicyPack` and `querySimilarRuns`. The columns of an event
-- that the ingest only copies are read by their names.
use loopstorm_guard.Common.{
  ℕ, ◌+◌, ◌*◌, String, Bool, false, ◌&&◌, Option, none, some, List, [], ◌∷◌, map, any, filter, take,
  str_eq, if◌then◌else◌,
}
use loopstorm_guard.Common.Dict
use loopstorm_guard.Json.{get_field, Json, str}
use loopstorm_guard.Paging.{Page, ascending, descending, order_by, list_page}
use loopstorm_guard.Ingest.Store.{RunRow, EventRow}
use loopstorm_guard.Queries.{has_type, is_event_of}
use loopstorm_guard.Policies.Router.{PolicyPack, get_policy}
use loopstorm_guard.Session.Sanitize.{slice_start}

pub data Reply (A : Type 0) : Type 0 where
  forbidden : Reply A
  not_found : Reply A
  found : A → Reply A

-- `requireSupervisorScope`, before the rest of a procedure.
abbrev pub with_scope : {A : Type 0} → List String → Reply A → Reply A
with_scope scopes reply = if any (str_eq "supervisor") scopes then reply else forbidden

-- `getRunEvents`: unlike `runs.getEvents` it does not ask for the run first.
unfoldable pub get_run_events :
    List String
    → String
    → String
    → Option String
    → ℕ
    → Option ℕ
    → List EventRow
    → Reply (Page EventRow)
get_run_events scopes tenant_id run_id event_type limit cursor events = with_scope scopes (
    found (
      list_page ascending (λ e. e.event.seq)
        (λ e. is_event_of run_id tenant_id e && has_type event_type e) limit cursor events))

abbrev found_pack : Option PolicyPack → Reply PolicyPack
found_pack none = not_found
found_pack (some pack) = found pack

-- `getPolicyPack`.
unfoldable pub get_policy_pack : List String → String → String → List PolicyPack → Reply PolicyPack
unfolding get_policy
get_policy_pack scopes tenant_id id table =
    with_scope scopes (found_pack (get_policy id tenant_id table))

abbrev pub text_of : Json → Option String
text_of (str s) = some s
text_of value = none

-- A column that holds a text or null.
unfoldable pub text_column : String → EventRow → Option String
text_column name e = text_of (get_field name e.event.other)

abbrev has_prefix : String → Option String → Bool
has_prefix prefix none = false
has_prefix prefix (some fingerprint) = str_eq (slice_start 16 fingerprint) prefix

-- The condition of the first query.
abbrev pub is_match : String → String → EventRow → Bool
unfolding slice_start text_column
is_match tenant_id prefix e =
    str_eq e.tenant_id tenant_id && has_prefix prefix (text_column "call_seq_fingerprint" e)

abbrev or_zero : Option ℕ → ℕ
or_zero none = 0
or_zero (some n) = n

-- The loop that counts the matches of each run. `Dict.set` gives the value to a key that is there.
unfoldable pub count_matches : List EventRow → List (String × ℕ) → List (String × ℕ)
unfolding Dict.get Dict.set
count_matches [] counts = counts
count_matches (e ∷ es) counts =
    count_matches es (Dict.set e.run_id (or_zero (Dict.get e.run_id counts) + 1) counts)

-- The ids of the runs with most matches.
unfoldable pub top_runs : ℕ → List EventRow → List String
unfolding count_matches order_by
top_runs limit rows =
    map (λ p. p.0) (take limit (order_by descending (λ p. p.1) (count_matches rows [])))

abbrev pub is_one_of : String → List String → RunRow → Bool
is_one_of tenant_id ids r = str_eq r.tenant_id tenant_id && any (str_eq r.run_id) ids

pub data Scope : Type 0 where
  customer : Scope
  anonymous_aggregate : Scope

abbrev pub similar_runs : String → String → ℕ → List EventRow → List RunRow → List RunRow
unfolding top_runs slice_start
similar_runs tenant_id fingerprint limit events runs =
    let matching =
      take (limit * 5) (filter (is_match tenant_id (slice_start 16 fingerprint)) events) in
    filter (is_one_of tenant_id (top_runs limit matching)) runs

-- `querySimilarRuns`.
unfoldable pub query_similar_runs :
    List String → String → String → Scope → ℕ → List EventRow → List RunRow → Reply (List RunRow)
query_similar_runs scopes tenant_id fingerprint anonymous_aggregate limit events runs =
    with_scope scopes (found [])
query_similar_runs scopes tenant_id fingerprint customer limit events runs =
    with_scope scopes (found (similar_runs tenant_id fingerprint limit events runs))
