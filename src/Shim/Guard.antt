-- ===== src/Shim/Guard.antt =====
-- `Guard` of apps/shim-ts/src/guard.ts. The engine is what each of the two attempts to ask it
-- answers; the wait of a cooldown and the proxy for OpenAI clients are left out.
use loopstorm_guard.Common.{
  ℕ, ◌+◌, String, Bool, ◌||◌, not, Option, none, some, ◌==◌, str_eq, if◌then◌else◌,
}
use loopstorm_guard.Json.{Json, ◌<>◌}
use loopstorm_guard.Policies.Content.{Number}
use loopstorm_guard.Shim.Jcs.{args_hash}

pub record BudgetRemaining : Type 0 where
  pub cost_usd : Option Number
  pub input_tokens : Option Number
  pub output_tokens : Option Number
  pub call_count : Option Number

pub record DecisionRequest : Type 0 where
  pub run_id : String
  pub seq : ℕ
  pub tool : String
  pub args_hash : String
  pub ts : String
  pub args_redacted : Option Json
  pub agent_role : Option String
  pub agent_name : Option String
  pub model : Option String
  pub input_tokens : Option ℕ
  pub output_tokens : Option ℕ
  pub estimated_cost_usd : Option Number
  pub environment : Option String

pub record DecisionResponse : Type 0 where
  pub run_id : String
  pub seq : ℕ
  pub decision : String
  pub rule_id : Option String
  pub reason : Option String
  pub cooldown_ms : Option ℕ
  pub cooldown_message : Option String
  pub approval_id : Option String
  pub approval_timeout_ms : Option ℕ
  pub approval_timeout_action : Option String
  pub budget_remaining : Option BudgetRemaining

pub record DecisionResult : Type 0 where
  pub decision : String
  pub rule_id : Option String
  pub reason : Option String
  pub cooldown_ms : Option ℕ
  pub cooldown_message : Option String
  pub budget_remaining : Option BudgetRemaining

-- The errors that `check` throws.
pub data GuardError : Type 0 where
  policy_denied : (rule_id reason : Option String) → GuardError
  cooldown : (ms : ℕ) (message : Option String) → GuardError
  run_terminated : (rule_id reason : Option String) → GuardError
  approval_required : (approval_id : String) (timeout_ms : ℕ) (action : String) → GuardError
  engine_unavailable : GuardError
  unsupported_args : GuardError

pub data Outcome : Type 0 where
  allowed : DecisionResult → Outcome
  thrown : GuardError → Outcome

pub record Guard : Type 0 where
  pub run_id : String
  pub fail_open : Bool
  pub agent_role : Option String
  pub agent_name : Option String
  pub environment : Option String
  pub model : Option String
  pub seq : ℕ

-- The options of `check`.
pub record CheckOptions : Type 0 where
  pub args : Option Json
  pub input_tokens : Option ℕ
  pub output_tokens : Option ℕ
  pub estimated_cost_usd : Option Number

-- What the connection brings back: at once, and after one reconnect; `none` is any error.
pub record Engine : Type 0 where
  pub first : DecisionRequest → Option DecisionResponse
  pub again : DecisionRequest → Option DecisionResponse

pub data Sent : Type 0 where
  answered : DecisionResponse → Sent
  let_through : Sent
  unavailable : Sent

unfoldable pub send : Bool → Engine → DecisionRequest → Sent
send fail_open engine request = elim (engine.first request) [
  | some response ↦ answered response
  | none ↦ elim (engine.again request) [
    | some response ↦ answered response
    | none ↦ if fail_open then let_through else unavailable
  ]
]

abbrev or_else {ℓ} : {A : Type ℓ} → Option A → A → A
or_else none d = d
or_else (some a) d = a

abbrev pub result_of : DecisionResponse → DecisionResult
result_of r = record {
  decision = r.decision;
  rule_id = r.rule_id;
  reason = r.reason;
  cooldown_ms = r.cooldown_ms;
  cooldown_message = r.cooldown_message;
  budget_remaining = r.budget_remaining;
}

unfoldable pub handle_decision : DecisionResponse → Outcome
handle_decision r =
    if str_eq r.decision "allow"
    then allowed (result_of r)
    else if str_eq r.decision "deny"
    then thrown (policy_denied r.rule_id r.reason)
    else if str_eq r.decision "cooldown"
    then thrown (cooldown (or_else r.cooldown_ms 0) r.cooldown_message)
    else if str_eq r.decision "kill"
    then thrown (run_terminated r.rule_id r.reason)
    else if str_eq r.decision "require_approval"
    then thrown (
        approval_required (or_else r.approval_id "") (or_else r.approval_timeout_ms 0)
          (or_else r.approval_timeout_action "deny"))
    else thrown (run_terminated none (some ("unknown decision: " <> r.decision)))

-- `{ decision: "allow" }`.
abbrev pub open_result : DecisionResult
open_result = record {
  decision = "allow";
  rule_id = none;
  reason = none;
  cooldown_ms = none;
  cooldown_message = none;
  budget_remaining = none;
}

-- The answer must repeat the sequence number and the run.
abbrev pub check_echo : Guard → ℕ → DecisionResponse → Outcome
check_echo g seq r =
    if not (r.seq == seq) || not (str_eq r.run_id g.run_id)
    then thrown
        (run_terminated none (some "protocol error: seq/run_id mismatch in engine response"))
    else handle_decision r

abbrev pub outcome_of : Guard → ℕ → Sent → Outcome
outcome_of g seq (answered r) = check_echo g seq r
outcome_of g seq let_through = allowed open_result
outcome_of g seq unavailable = thrown engine_unavailable

abbrev pub request_of : Guard → String → CheckOptions → String → String → DecisionRequest
request_of g tool options hash ts = record {
  run_id = g.run_id;
  seq = g.seq;
  tool = tool;
  args_hash = hash;
  ts = ts;
  args_redacted = options.args;
  agent_role = g.agent_role;
  agent_name = g.agent_name;
  model = g.model;
  input_tokens = options.input_tokens;
  output_tokens = options.output_tokens;
  estimated_cost_usd = options.estimated_cost_usd;
  environment = g.environment;
}

abbrev pub counted : Guard → Guard
counted g = record g { seq = g.seq + 1 }

-- `check`.
unfoldable pub check :
    (String → String) → Engine → String → CheckOptions → String → Guard → Guard × Outcome
unfolding send handle_decision args_hash
check sha256 engine tool options ts g = (
  counted g,
  elim (args_hash sha256 options.args) [
    | none ↦ thrown unsupported_args
    | some hash ↦
        outcome_of (counted g) (counted g).seq
          (send g.fail_open engine (request_of (counted g) tool options hash ts))
  ],
)

-- A call of a wrapped function: it is made only if `check` returns.
pub data WrappedCall (R : Type 0) : Type 0 where
  called : R → WrappedCall R
  blocked : GuardError → WrappedCall R

abbrev pub call_if_allowed : {R : Type 0} → (Unit {0} → R) → Outcome → WrappedCall R
call_if_allowed f (allowed result) = called (f tt)
call_if_allowed f (thrown error) = blocked error

unfoldable pub wrap :
    {R : Type 0}
    → (String → String)
    → Engine
    → String
    → Json
    → (Unit {0} → R)
    → String
    → Guard
    → Guard × WrappedCall R
unfolding check
wrap sha256 engine tool args f ts g =
    let options : CheckOptions = record {
      args = some args;
      input_tokens = none;
      output_tokens = none;
      estimated_cost_usd = none;
    } in
    let answer = check sha256 engine tool options ts g in (answer.0, call_if_allowed f answer.1)
