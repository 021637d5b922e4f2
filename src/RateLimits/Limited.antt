-- ===== src/RateLimits/Limited.antt =====
-- How many requests the middleware lets through in a window.
use loopstorm_guard.Common.{
  ℕ, ◌+◌, String, Bool, true, false, ◌&&◌, ◌||◌, not, none, some, List, [], ◌∷◌, ◌==◌, str_eq,
  if◌then◌else◌, Option,
}
use loopstorm_guard.Common.Texts.{trim}
use loopstorm_guard.RateLimits.Store.{Bucket, DbReply, start_of}
use loopstorm_guard.RateLimits.Email.{
  Limits, Request, Outcome, sent, limited, passed_by, ip_key, address_key, cooldown_key, daily_key,
  email_rate_limit,
}

-- The four limits of the two endpoints.
pub data Limit : Type 0 where
  by_ip : Limit
  by_address : Limit
  by_cooldown : Limit
  by_day : Limit

-- The requests for a password mail and those for a verification mail, by their documented paths.
abbrev pub asks_password : Request → Bool
asks_password r = str_eq r.method "POST" && str_eq r.path "/api/auth/forget-password"

abbrev pub asks_verification : Request → Bool
asks_verification r = str_eq r.method "POST" && str_eq r.path "/api/auth/send-verification-email"

abbrev pub applies : Limit → Request → Bool
applies by_ip r = asks_password r || asks_verification r
applies by_address r = asks_password r || asks_verification r
applies by_cooldown r = asks_verification r
applies by_day r = asks_verification r

-- A request at a time, with the answers of the database.
pub record Attempt : Type 0 where
  pub request : Request
  pub now : ℕ
  pub reply : String → DbReply

-- Everything but an answer 429 calls the next handler.
abbrev pub goes_on : Outcome → Bool
goes_on passed_by = true
goes_on (limited n) = false
goes_on (sent ip) = true

module _ (to_lower sha256 : String → String) (limits : Limits) where
  abbrev pub window_of : Limit → ℕ
  window_of by_ip = 3600
  window_of by_address = 3600
  window_of by_cooldown = limits.resend_cooldown_seconds
  window_of by_day = 86400

  abbrev pub limit_of : Limit → ℕ
  limit_of by_ip = limits.per_hour
  limit_of by_address = limits.per_hour
  limit_of by_cooldown = 1
  limit_of by_day = limits.resend_per_day

  abbrev pub key_of : Limit → Request → String → String
  key_of by_ip r email = ip_key to_lower sha256 limits r
  key_of by_address r email = address_key to_lower sha256 limits r email
  key_of by_cooldown r email = cooldown_key to_lower sha256 limits email
  key_of by_day r email = daily_key to_lower sha256 limits email

  -- The address in a body, without spaces around it and in lower case.
  abbrev pub field_address : Option String → String
  field_address none = ""
  field_address (some email) = to_lower (trim email)

  abbrev pub address : Request → String
  address r = elim r.body [ none ↦ "" | some field ↦ field_address field ]

  -- The request has an e-mail address and falls under the limit, with the key, in the window that
  -- begins at `start`.
  abbrev pub falls_under : Limit → String → ℕ → Attempt → Bool
  falls_under l key start a =
      applies l a.request
      && (not (str_eq (address a.request) "")
          && (str_eq (key_of l a.request (address a.request)) key
              && start_of (window_of l) a.now == start))

  -- How many of the requests that fall under the limit go on to the next handler.
  unfoldable pub passed_count : Limit → String → ℕ → List Attempt → List Bucket → ℕ
  passed_count l key start [] table = 0
  passed_count l key start (a ∷ rest) table =
      let answer = email_rate_limit to_lower sha256 limits a.request a.now a.reply table in
      (if falls_under l key start a && goes_on answer.1 then 1 else 0)
      + passed_count l key start rest answer.0
