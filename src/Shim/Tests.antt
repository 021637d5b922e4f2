-- ===== src/Shim/Tests.antt =====
-- A guard with a running engine, and without one.
use loopstorm_guard.Common.{
  ℕ, ◌≡◌, ◌↔◌, refl, String, Bool, true, false, none, some, str_eq, if◌then◌else◌,
}
use loopstorm_guard.Json.{
  null, number, infinite, arr, obj, nil, cons, end, field, deterministic_stringify,
}
use loopstorm_guard.Shim.Jcs.{jcs_serialize, args_hash}
use loopstorm_guard.Shim.Canonical.{is_plain, jcs_serialize-plain}
use loopstorm_guard.Shim.Guard.{
  Guard, DecisionResponse, allowed, thrown, policy_denied, run_terminated, engine_unavailable,
  unsupported_args, CheckOptions, Engine, check, send, handle_decision, result_of, open_result,
  request_of, counted, wrap, blocked,
}
use loopstorm_guard.Shim.Enforced.{IsAllowed, check_allowed_iff}

abbrev guard : Bool → Guard
guard fail_open = record {
  run_id = "r";
  fail_open = fail_open;
  agent_role = none;
  agent_name = none;
  environment = none;
  model = none;
  seq = 4;
}

abbrev answer : String → String → ℕ → DecisionResponse
answer decision run_id seq = record {
  run_id = run_id;
  seq = seq;
  decision = decision;
  rule_id = some "rule";
  reason = some "why";
  cooldown_ms = none;
  cooldown_message = none;
  approval_id = none;
  approval_timeout_ms = none;
  approval_timeout_action = none;
  budget_remaining = none;
}

-- An engine that answers after a reconnect, and denies `rm`.
abbrev engine : Engine
engine = record {
  first = λ q. none;
  again = λ q. some (answer (if str_eq q.tool "rm" then "deny" else "allow") q.run_id q.seq);
}

abbrev gone : Engine
gone = record { first = λ q. none; again = λ q. none }

abbrev stale : Engine
stale = record { first = λ q. some (answer "allow" q.run_id 3); again = λ q. none }

abbrev options : CheckOptions
options = record {
  args = none;
  input_tokens = none;
  output_tokens = none;
  estimated_cost_usd = none;
}

abbrev same : String → String
same s = s

allowed_after_reconnect :
    (check same engine "ls" options "t" (guard false)).1
    ≡ allowed (result_of (answer "allow" "r" 5))
unfolding check send handle_decision args_hash
allowed_after_reconnect = refl

denied :
    (check same engine "rm" options "t" (guard true)).1
    ≡ thrown (policy_denied (some "rule") (some "why"))
unfolding check send handle_decision args_hash
denied = refl

stale_terminates :
    (check same stale "ls" options "t" (guard true)).1
    ≡ thrown (run_terminated none (some "protocol error: seq/run_id mismatch in engine response"))
unfolding check send handle_decision args_hash
stale_terminates = refl

gone_open : (check same gone "ls" options "t" (guard true)).1 ≡ allowed open_result
unfolding check send handle_decision args_hash
gone_open = refl

gone_closed : (check same gone "ls" options "t" (guard false)).1 ≡ thrown engine_unavailable
unfolding check send handle_decision args_hash
gone_closed = refl

infinite_blocked :
    (wrap {R = String} same gone "ls" (arr (cons infinite nil)) (λ u. "done") "t" (guard true)).1
    ≡ blocked unsupported_args
unfolding wrap check send handle_decision args_hash jcs_serialize
infinite_blocked = refl

check_allowed_iff_example :
    ((check same engine "ls" options "t" (guard false)).1
      ≡ allowed (result_of (answer "allow" "r" 5)))
    ↔ ((hash : String) × (args_hash same none ≡ some hash)
        × IsAllowed
            (guard false)
            engine
            (request_of (counted (guard false)) "ls" options hash "t")
            (result_of (answer "allow" "r" 5)))
check_allowed_iff_example =
    check_allowed_iff same engine "ls" options "t" (guard false) (result_of (answer "allow" "r" 5))

jcs_serialize-plain_example :
    jcs_serialize (obj (field "b" (number "1") (field "a" (arr (cons null nil)) end)))
    ≡ some (
        deterministic_stringify
          (obj (field "b" (number "1") (field "a" (arr (cons null nil)) end))))
unfolding is_plain
jcs_serialize-plain_example =
    jcs_serialize-plain (obj (field "b" (number "1") (field "a" (arr (cons null nil)) end))) refl
