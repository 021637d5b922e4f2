-- ===== src/RateLimits/Tests.antt =====
-- Concrete requests.
use loopstorm_guard.Common.{◌≡◌, refl, String, none, some, List, [], ◌∷◌}
use loopstorm_guard.Common.Texts.{trim_end, trim}
use loopstorm_guard.RateLimits.Store.{
  DbReply, answers, fails_after, increment_bucket, upsert, count_of,
}
use loopstorm_guard.RateLimits.Email.{
  Limits, Request, sent, limited, email_rate_limit, run_checks, extract_ip,
}
use loopstorm_guard.RateLimits.Limited.{Attempt, by_address, passed_count}

abbrev same : String → String
same s = s

abbrev defaults : Limits
defaults = record { per_hour = 5; resend_per_day = 5; resend_cooldown_seconds = 60 }

abbrev resend : Request
resend = record {
  path = "/api/auth/send-verification-email";
  method = "POST";
  body = some (some " a@b.c ");
  vercel_forwarded_for = none;
  forwarded_for = some "1.2.3.4 , 5.6.7.8";
}

abbrev up : String → DbReply
up key = answers

abbrev down : String → DbReply
down key = fails_after

-- The second request of a minute is refused for the rest of the minute, and then let through.
abbrev three : List Attempt
three =
    record { request = resend; now = 7205; reply = up }
    ∷ record { request = resend; now = 7230; reply = up }
    ∷ record { request = resend; now = 7260; reply = up }
    ∷ []

first_sent : (email_rate_limit same same defaults resend 7205 up []).1 ≡ sent "1.2.3.4"
unfolding email_rate_limit run_checks increment_bucket upsert count_of extract_ip trim trim_end
first_sent = refl

second_limited :
    (email_rate_limit same same defaults resend 7230 up
      (email_rate_limit same same defaults resend 7205 up []).0).1
    ≡ limited 30
unfolding email_rate_limit run_checks increment_bucket upsert count_of extract_ip trim trim_end
second_limited = refl

failure_limited : (email_rate_limit same same defaults resend 7205 down []).1 ≡ limited 3600
unfolding email_rate_limit run_checks increment_bucket upsert count_of extract_ip trim trim_end
failure_limited = refl

three_passed :
    passed_count same same defaults by_address "email:resend:addr:a@b.c" 7200 three [] ≡ 2
unfolding passed_count email_rate_limit run_checks increment_bucket upsert count_of extract_ip trim
    trim_end
three_passed = refl
