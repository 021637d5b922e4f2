-- ===== src/Tools/Fresh.antt =====
-- What the cache of the baselines may answer.
use loopstorm_guard.Common.{
  ℕ, ◌+◌, ◌≤◌, ◌≡◌, inl, inr, refl, sym, ap, ◌∙◌, String, Option, none, some, List, [], ◌∷◌, arith,
  Bool-cases, Option-cases, Any, Any-map, All, ltb, any, str_eq, str_eq_iff,
}
use mathlib.Core.Option.{some-injective}
use loopstorm_guard.Common.Dict
use loopstorm_guard.Tools.Tenant.{NoColon, cache_key-tenant}
use loopstorm_guard.Tools.Baseline.{
  Sql, AgentBaseline, BaselineCache, BaselineCacheEntry, baseline_cache_ttl_ms, get_cached_baseline,
  set_cached_baseline, BaselineRequest, compute_baseline, cache_key, answered, answer_of,
  get_agent_baseline, CacheStep, looked_up, stored, storers, cache_after,
}

-- The request `c` has computed `data_of` for the key, and its entry is over at `expires_at`.
abbrev Backs : Sql → String → BaselineCacheEntry → BaselineRequest → Type 0
Backs sql key entry c =
    (cache_key sql c ≡ key)
    × (entry.data_of ≡ compute_baseline sql c)
    × (entry.expires_at ≡ c.stored_at + baseline_cache_ttl_ms)

-- Each entry has been computed by one of the requests.
record IsBacked (sql : Sql) (rs : List BaselineRequest) (cache : BaselineCache) : Type 0 where
  backs :
      (key : String) (entry : BaselineCacheEntry)
      → Dict.get key cache ≡ some entry
      → Any (Backs sql key entry) rs

-- One of the requests has computed the answer for the key, and stored it at most five minutes
-- before `now`.
abbrev pub IsFresh : Sql → String → ℕ → AgentBaseline → BaselineRequest → Type 0
IsFresh sql key now data_of c =
    (cache_key sql c ≡ key)
    × (data_of ≡ compute_baseline sql c)
    × (now ≤ c.stored_at + baseline_cache_ttl_ms)

get_cached-IsBacked :
    (sql : Sql) (rs : List BaselineRequest) (key : String) (now : ℕ) (cache : BaselineCache)
    → IsBacked sql rs cache
    → IsBacked sql rs (get_cached_baseline key now cache).0
unfolding get_cached_baseline
get_cached-IsBacked sql rs key now cache h = elim (Option-cases (Dict.get key cache)) [
  | inl e ↦ rw (get_cached_baseline, e) h
  | inr (entry, e) ↦ elim (Bool-cases (ltb entry.expires_at now)) [
    | inl e' ↦
        rw (get_cached_baseline, e, e')
          (record {
            backs = λ k x found. elim (Bool-cases (str_eq key k)) [
              | inl same ↦ absurd (cc (Dict.get-delete key k cache, same, found))
              | inr other ↦ h.backs k x (rw (Dict.get-delete key k cache, other) at found)
            ];
          })
    | inr e' ↦ rw (get_cached_baseline, e, e') h
  ]
]

set_cached-IsBacked :
    (sql : Sql) (rs : List BaselineRequest) (r : BaselineRequest) (cache : BaselineCache)
    → IsBacked sql rs cache
    → IsBacked sql
        (r ∷ rs)
        (set_cached_baseline (cache_key sql r) (compute_baseline sql r) r.stored_at cache)
unfolding set_cached_baseline
set_cached-IsBacked sql rs r cache h = record {
  backs = λ key entry found.
      let fresh : BaselineCacheEntry = record {
        data_of = compute_baseline sql r;
        expires_at = r.stored_at + baseline_cache_ttl_ms;
      } in
      let law = Dict.get-set (cache_key sql r) key fresh cache in
      elim (Bool-cases (str_eq (cache_key sql r) key)) [
        | inl same ↦
            let is_fresh : fresh ≡ entry =
              some-injective fresh entry (rw (set_cached_baseline, law, same) at found) in
            inl (
              (str_eq_iff (cache_key sql r) key).0 same,
              ap (λ x. x.data_of) (sym is_fresh),
              ap (λ x. x.expires_at) (sym is_fresh),
            )
        | inr other ↦ inr (h.backs key entry (rw (set_cached_baseline, law, other) at found))
      ];
}

get_cached-IsFresh :
    (sql : Sql) (rs : List BaselineRequest) (key : String) (now : ℕ) (cache : BaselineCache)
    (data_of : AgentBaseline)
    → IsBacked sql rs cache
    → (get_cached_baseline key now cache).1 ≡ some data_of
    → Any (IsFresh sql key now data_of) rs
unfolding get_cached_baseline
get_cached-IsFresh sql rs key now cache data_of h found = elim (Option-cases (Dict.get key cache)) [
  | inl e ↦ absurd (cc (found, e))
  | inr (entry, e) ↦ elim (Bool-cases (ltb entry.expires_at now)) [
    | inl e' ↦ absurd (cc (found, e, e'))
    | inr e' ↦
        let held : entry.data_of ≡ data_of =
          some-injective entry.data_of data_of (rw (get_cached_baseline, e, e') at found) in
        let young : now ≤ entry.expires_at = ground arith in
        Any-map (Backs sql key entry) (IsFresh sql key now data_of) rs
          (λ c (is_key, computed, over). (is_key, sym held ∙ computed, rw (over) at young))
          (h.backs key entry e)
  ]
]

cache_after-IsBacked :
    (sql : Sql) (steps : List CacheStep) → IsBacked sql (storers steps) (cache_after sql steps)
unfolding cache_after Dict.get
cache_after-IsBacked sql [] = record { backs = λ key entry found. cc }
cache_after-IsBacked sql (looked_up r ∷ steps) =
    get_cached-IsBacked sql (storers steps) (cache_key sql r) r.started_at (cache_after sql steps)
      (cache_after-IsBacked sql steps)
cache_after-IsBacked sql (stored r ∷ steps) =
    set_cached-IsBacked sql (storers steps) r (cache_after sql steps)
      (cache_after-IsBacked sql steps)

answer_of-IsFresh :
    (sql : Sql) (rs : List BaselineRequest) (r : BaselineRequest)
    (got : BaselineCache × Option AgentBaseline) (data_of : AgentBaseline)
    → r.started_at ≤ r.stored_at
    → ((cached : AgentBaseline)
        → got.1 ≡ some cached
        → Any (IsFresh sql (cache_key sql r) r.started_at cached) rs)
    → (answer_of sql r got).1 ≡ answered data_of
    → Any (IsFresh sql (cache_key sql r) r.started_at data_of) (r ∷ rs)
answer_of-IsFresh sql rs r (cache, some cached) data_of in_order h is_answer =
    let same : cached ≡ data_of = cc is_answer in inr (rw (same) at (h cached refl))
answer_of-IsFresh sql rs r (cache, none) data_of in_order h is_answer =
    inl (refl, cc is_answer, omega (arith, in_order))

of_tenant :
    (sql : Sql) (r : BaselineRequest) (data_of : AgentBaseline) (cs : List BaselineRequest)
    → NoColon r.tenant_id
    → All (λ c. NoColon c.tenant_id) cs
    → Any (IsFresh sql (cache_key sql r) r.started_at data_of) cs
    → Any
        (λ c. (c.tenant_id ≡ r.tenant_id) × IsFresh sql (cache_key sql r) r.started_at data_of c)
        cs
of_tenant sql r data_of [] id ids h = absurd h
of_tenant sql r data_of (c ∷ cs) id (id', ids) (inl fresh) =
    inl (cache_key-tenant sql c r id' id fresh.0, fresh)
of_tenant sql r data_of (c ∷ cs) id (id', ids) (inr h) = inr (of_tenant sql r data_of cs id ids h)

-- After any steps of requests that may overlap, when this request does not store its result before it
-- starts, and no id of a tenant has a colon: what the request is answered has been computed by a
-- request of the same tenant with the same key, from the tables of that time, this one or one that
-- has stored it at most five minutes before this one starts.
pub answer-IsFresh :
    (sql : Sql) (steps : List CacheStep) (r : BaselineRequest) (data_of : AgentBaseline)
    → r.started_at ≤ r.stored_at
    → All (λ c. NoColon c.tenant_id) (r ∷ storers steps)
    → (get_agent_baseline sql r (cache_after sql steps)).1 ≡ answered data_of
    → Any
        (λ c. (c.tenant_id ≡ r.tenant_id) × IsFresh sql (cache_key sql r) r.started_at data_of c)
        (r ∷ storers steps)
unfolding get_agent_baseline
answer-IsFresh sql steps r data_of in_order ids is_answer =
    let cache = cache_after sql steps in
    let rs = storers steps in
    let found = get_cached_baseline (cache_key sql r) r.started_at cache in
    elim (Bool-cases (any (str_eq "supervisor") r.scopes)) [
      | inl e ↦ of_tenant sql r data_of (r ∷ rs) ids.0 ids (
          answer_of-IsFresh sql rs r found data_of in_order
            (λ cached hit.
              get_cached-IsFresh sql rs (cache_key sql r) r.started_at cache cached
                (cache_after-IsBacked sql steps) hit)
            (rw (get_agent_baseline, e) at is_answer))
      | inr e ↦ absurd (cc (is_answer, e))
    ]
