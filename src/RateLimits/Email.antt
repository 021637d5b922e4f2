-- ===== src/RateLimits/Email.antt =====
-- `emailRateLimit` of packages/backend/src/middleware/email-rate-limit.ts. `toLowerCase` and the
-- SHA-256 of a text are parameters; the user agent and the nonce of the context are left out.
use Prim.Native.Char.{code}
use Prim.Native.String
use Prim.Native.String.{[], ◌∷◌}
use loopstorm_guard.Common.{
  ℕ, String, Bool, ◌||◌, not, Option, none, some, List, ◌==◌, str_eq, if◌then◌else◌,
}
use loopstorm_guard.Common.Texts.{trim}
use loopstorm_guard.RateLimits.Store.{Bucket, DbReply, increment_bucket}

infixl 65 ◌<>◌
abbrev ◌<>◌ : String → String → String
◌<>◌ = String.◌++◌

-- The three settings of env.ts that are read.
pub record Limits : Type 0 where
  pub per_hour : ℕ
  pub resend_per_day : ℕ
  pub resend_cooldown_seconds : ℕ

-- `body` is `none` if it is no JSON; `email` is `none` if it is no string.
pub record Request : Type 0 where
  pub path : String
  pub method : String
  pub body : Option (Option String)
  pub vercel_forwarded_for : Option String
  pub forwarded_for : Option String

pub data Outcome : Type 0 where
  passed_by : Outcome
  limited : (retry_after : ℕ) → Outcome
  sent : (ip : String) → Outcome

-- `s.split(",")[0]`.
abbrev pub before_comma : String → String
before_comma [] = ""
before_comma (c ∷ s) = if code c == 44 then "" else c ∷ before_comma s

abbrev pub or_unknown : String → String
or_unknown s = if str_eq s "" then "unknown" else s

abbrev first_address : Option String → String → String
first_address none other = other
first_address (some header) other =
    if str_eq header "" then other else or_unknown (trim (before_comma header))

unfoldable pub extract_ip : Request → String
unfolding trim
extract_ip r = first_address r.vercel_forwarded_for (first_address r.forwarded_for "unknown")

abbrev pub is_resend : Request → Bool
is_resend r = str_eq r.path "/api/auth/send-verification-email"

abbrev pub is_forget : Request → Bool
is_forget r = str_eq r.path "/api/auth/forget-password"

-- The database, asked for one key after the other.
pub data Check : Type 0 where
  next_check : (key : String) (window limit : ℕ) (rest : Check) → Check
  pass : (ip : String) → Check

-- Each check is made only if the ones before it have allowed the request.
unfoldable pub run_checks : ℕ → (String → DbReply) → Check → List Bucket → List Bucket × Outcome
unfolding increment_bucket
run_checks now reply (pass ip) table = (table, sent ip)
run_checks now reply (next_check key window limit rest) table =
    let (after, result) = increment_bucket key window limit now (reply key) table in
    let later = run_checks now reply rest after in
    if result.allowed then later else (after, limited result.retry_after)

module _ (to_lower sha256 : String → String) (limits : Limits) where
  abbrev pub hash_email_key : String → String
  hash_email_key email = sha256 (to_lower (trim email))

  -- The address, normalised; the empty text where none is given.
  abbrev pub email_of : Option String → String
  email_of none = ""
  email_of (some email) = to_lower (trim email)

  abbrev pub tag : Request → String
  tag r = if is_resend r then "resend" else "forget"

  abbrev pub ip_key : Request → String
  ip_key r = "email:" <> tag r <> ":ip:" <> extract_ip r

  abbrev pub address_key : Request → String → String
  address_key r email = "email:" <> tag r <> ":addr:" <> hash_email_key email

  abbrev pub cooldown_key : String → String
  cooldown_key email = "email:resend:cooldown:" <> hash_email_key email

  abbrev pub daily_key : String → String
  daily_key email = "email:resend:daily:" <> hash_email_key email

  abbrev resend_checks : Request → String → Check
  resend_checks r email =
      next_check (cooldown_key email) limits.resend_cooldown_seconds 1
        (next_check (daily_key email) 86400 limits.resend_per_day (pass (extract_ip r)))

  abbrev pub checks_of : Request → String → Check
  checks_of r email = next_check (ip_key r) 3600 limits.per_hour (
      next_check (address_key r email) 3600 limits.per_hour
        (if is_resend r then resend_checks r email else pass (extract_ip r)))

  unfoldable pub email_rate_limit :
      Request → ℕ → (String → DbReply) → List Bucket → List Bucket × Outcome
  unfolding run_checks
  email_rate_limit r now reply table =
      if not (is_forget r || is_resend r)
      then (table, passed_by)
      else if not (str_eq r.method "POST")
      then (table, passed_by)
      else elim r.body [
        | none ↦ (table, passed_by)
        | some field ↦
            if str_eq (email_of field) ""
            then (table, passed_by)
            else run_checks now reply (checks_of r (email_of field)) table
      ]
