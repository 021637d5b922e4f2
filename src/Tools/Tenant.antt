-- ===== src/Tools/Tenant.antt =====
-- The tenant in a key of the cache of baselines.
use Prim.Native.Char.{code}
use Prim.Native.String.{[], ◌∷◌}
use text.Mathlib.TextLemmas.{nil-append, cons-append}
use loopstorm_guard.Common.{◌≡◌, refl, sym, ◌∙◌, ap, String, false, ◌==◌, if◌then◌else◌}
use loopstorm_guard.Json.{◌<>◌}
use loopstorm_guard.Tools.Baseline.{Sql, BaselineRequest, cache_key}

-- No colon, as in the ids of tenants, which are UUIDs.
abbrev pub NoColon : String → Type 0
NoColon [] = Unit
NoColon (c ∷ s) = ((code c == 58) ≡ false) × NoColon s

before_colon : String → String
before_colon [] = ""
before_colon (c ∷ s) = if code c == 58 then "" else c ∷ before_colon s

before_colon-append : (s t : String) → NoColon s → before_colon (s <> (":" <> t)) ≡ s
unfolding before_colon
before_colon-append [] t h = rw (nil-append (":" <> t), cons-append) refl
before_colon-append (c ∷ s) t (other, h) =
    rw (cons-append c s (":" <> t), other) (ap (λ x. c ∷ x) (before_colon-append s t h))

-- Requests with one key are of one tenant.
pub cache_key-tenant :
    (sql : Sql) (c r : BaselineRequest)
    → NoColon c.tenant_id
    → NoColon r.tenant_id
    → cache_key sql c ≡ cache_key sql r
    → c.tenant_id ≡ r.tenant_id
cache_key-tenant sql c r h k same =
    sym (before_colon-append c.tenant_id (c.agent_name <> (":" <> sql.show c.lookback_days)) h)
    ∙ ap before_colon same
    ∙ before_colon-append r.tenant_id (r.agent_name <> (":" <> sql.show r.lookback_days)) k
