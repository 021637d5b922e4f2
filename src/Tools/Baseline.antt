-- ===== src/Tools/Baseline.antt =====
-- `supervisorTools.getAgentBaseline` and its cache. The SQL functions AVG and PERCENTILE_CONT and
-- the printing of a number are arguments; a request reads the clock when it looks into the cache
-- and when it stores its result.
use loopstorm_guard.Common.{
  ℕ, ◌+◌, ◌-◌, ◌*◌, String, Bool, ◌&&◌, Option, none, some, ltb, leb, if◌then◌else◌, str_eq,
  opt_str_eq, any, filter, length, map, List,
}
use loopstorm_guard.Common.Dict
use loopstorm_guard.Json.{◌<>◌}
use loopstorm_guard.Policies.Content.{Number}
use loopstorm_guard.Ingest.Store.{EventRow}
use loopstorm_guard.Queries.{RunEntry}

pub record Sql : Type 0 where
  pub avg : List ℕ → Number
  pub percentile_cont : ℕ → List ℕ → Number
  pub show : ℕ → String

-- The aggregates of an agent with enough runs. The deny rate is `denied` of `decided`, and zero
-- without decisions.
pub record Aggregates : Type 0 where
  pub avg_cost : Number
  pub median_cost : Number
  pub p95_cost : Number
  pub avg_call_count : Number
  pub avg_input_tokens : Number
  pub avg_output_tokens : Number
  pub denied : ℕ
  pub decided : ℕ

-- Without aggregates the answer carries the warning INSUFFICIENT_DATA.
pub record AgentBaseline : Type 0 where
  pub run_count : ℕ
  pub aggregates : Option Aggregates

pub record BaselineCacheEntry : Type 0 where
  pub data_of : AgentBaseline
  pub expires_at : ℕ

abbrev pub BaselineCache : Type 0
BaselineCache = List (String × BaselineCacheEntry)

abbrev pub baseline_cache_ttl_ms : ℕ
baseline_cache_ttl_ms = 300_000

-- `getCachedBaseline`: an entry that is over is deleted.
unfoldable pub get_cached_baseline :
    String → ℕ → BaselineCache → BaselineCache × Option AgentBaseline
unfolding Dict.get Dict.delete
get_cached_baseline key now cache = elim (Dict.get key cache) [
  | none ↦ (cache, none)
  | some entry ↦
      if ltb entry.expires_at now
      then (Dict.delete key cache, none)
      else (cache, some entry.data_of)
]

unfoldable pub set_cached_baseline : String → AgentBaseline → ℕ → BaselineCache → BaselineCache
unfolding Dict.set
set_cached_baseline key data_of now cache =
    Dict.set key (record { data_of = data_of; expires_at = now + baseline_cache_ttl_ms }) cache

-- A request, with the times at which it starts and stores, and the tables that it reads.
pub record BaselineRequest : Type 0 where
  pub scopes : List String
  pub tenant_id : String
  pub agent_name : String
  pub lookback_days : ℕ
  pub started_at : ℕ
  pub stored_at : ℕ
  pub runs : List RunEntry
  pub events : List EventRow

abbrev is_agent_run : BaselineRequest → RunEntry → Bool
is_agent_run r e =
    str_eq e.row.tenant_id r.tenant_id
    && (opt_str_eq e.row.agent_name (some r.agent_name)
        && leb (r.started_at - r.lookback_days * 86_400_000) e.created_at)

abbrev agent_runs : BaselineRequest → List RunEntry
agent_runs r = filter (is_agent_run r) r.runs

abbrev is_agent_event : BaselineRequest → EventRow → Bool
is_agent_event r e =
    str_eq e.tenant_id r.tenant_id && any (λ run. str_eq run.row.run_id e.run_id) (agent_runs r)

abbrev is_denied : EventRow → Bool
is_denied e = opt_str_eq e.event.decision (some "deny")

abbrev is_decision : EventRow → Bool
is_decision e = str_eq e.event.event_type "policy_decision"

abbrev aggregates_of : Sql → BaselineRequest → List RunEntry → Aggregates
aggregates_of sql r found = record {
  avg_cost = sql.avg (map (λ e. e.row.total_cost) found);
  median_cost = sql.percentile_cont 50 (map (λ e. e.row.total_cost) found);
  p95_cost = sql.percentile_cont 95 (map (λ e. e.row.total_cost) found);
  avg_call_count = sql.avg (map (λ e. e.row.total_call_count) found);
  avg_input_tokens = sql.avg (map (λ e. e.row.total_input_tokens) found);
  avg_output_tokens = sql.avg (map (λ e. e.row.total_output_tokens) found);
  denied = length (filter is_denied (filter (is_agent_event r) r.events));
  decided = length (filter is_decision (filter (is_agent_event r) r.events));
}

-- What the request computes from the tables: at least three runs are needed.
unfoldable pub compute_baseline : Sql → BaselineRequest → AgentBaseline
compute_baseline sql r =
    let found = agent_runs r in
    record {
      run_count = length found;
      aggregates = if ltb (length found) 3 then none else some (aggregates_of sql r found);
    }

abbrev pub cache_key : Sql → BaselineRequest → String
cache_key sql r = r.tenant_id <> (":" <> (r.agent_name <> (":" <> sql.show r.lookback_days)))

pub data BaselineAnswer : Type 0 where
  forbidden : BaselineAnswer
  answered : AgentBaseline → BaselineAnswer

abbrev pub answer_of :
    Sql → BaselineRequest → BaselineCache × Option AgentBaseline → BaselineCache × BaselineAnswer
answer_of sql r (cache, some data_of) = (cache, answered data_of)
answer_of sql r (cache, none) =
    let data_of = compute_baseline sql r in
    (set_cached_baseline (cache_key sql r) data_of r.stored_at cache, answered data_of)

-- `getAgentBaseline`.
unfoldable pub get_agent_baseline :
    Sql → BaselineRequest → BaselineCache → BaselineCache × BaselineAnswer
get_agent_baseline sql r cache =
    if any (str_eq "supervisor") r.scopes
    then answer_of sql r (get_cached_baseline (cache_key sql r) r.started_at cache)
    else (cache, forbidden)

-- What requests do to the cache, when they may overlap: each looks up its key, and one that has
-- found nothing stores its result later.
pub data CacheStep : Type 0 where
  looked_up : BaselineRequest → CacheStep
  stored : BaselineRequest → CacheStep

abbrev pub cache_step : Sql → CacheStep → BaselineCache → BaselineCache
cache_step sql (looked_up r) cache = (get_cached_baseline (cache_key sql r) r.started_at cache).0
cache_step sql (stored r) cache =
    set_cached_baseline (cache_key sql r) (compute_baseline sql r) r.stored_at cache

-- The cache after some steps, the latest first in the list.
unfoldable pub cache_after : Sql → List CacheStep → BaselineCache
cache_after sql List.[] = List.[]
cache_after sql (List.◌∷◌ step steps) = cache_step sql step (cache_after sql steps)

-- The requests that have stored a result.
abbrev pub storers : List CacheStep → List BaselineRequest
storers List.[] = List.[]
storers (List.◌∷◌ (stored r) steps) = List.◌∷◌ r (storers steps)
storers (List.◌∷◌ (looked_up r) steps) = storers steps
