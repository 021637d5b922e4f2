-- ===== src/ChainVerify.antt =====
-- packages/backend/src/lib/chain-verify.ts: the verification of a run's hash chain. The hash
-- function of `node:crypto` is the parameter `sha256`, from a text to its hex digest.
pub mod Linked
mod Tests
use loopstorm_guard.Common.{
  ℕ, String, Bool, Option, none, some, List, [], ◌∷◌, if◌then◌else◌, length, str_eq, opt_str_eq,
}
use loopstorm_guard.Common.Sort.{sort_by}
use loopstorm_guard.Json.{Fields, obj, deterministic_stringify}

-- `rest` holds the members other than `hash`, `hash_prev` and `raw_line`.
pub record ChainEvent : Type 0 where
  pub seq : ℕ
  pub hash : String
  pub hash_prev : Option String
  pub raw_line : Option String
  pub rest : Fields

-- What the `reason` texts report.
pub data Reason : Type 0 where
  hash_mismatch : (computed stored : String) → Reason
  first_has_prev : (hash_prev : Option String) → Reason
  chain_break : (hash_prev : Option String) (expected : String) → Reason

pub data ChainVerifyResult : Type 0 where
  valid : (event_count : ℕ) → ChainVerifyResult
  invalid : (event_count broken_at_seq : ℕ) → Reason → ChainVerifyResult

-- The test of the link: `hash_prev` is null in the first event, and the previous hash after it.
abbrev pub link_ok : Option String → ChainEvent → Bool
link_ok prev event = opt_str_eq event.hash_prev prev

abbrev pub link_reason : Option String → ChainEvent → Reason
link_reason none event = first_has_prev event.hash_prev
link_reason (some h) event = chain_break event.hash_prev h

module _ (sha256 : String → String) where
  unfoldable pub compute_event_hash : ChainEvent → String
  compute_event_hash event = elim event.raw_line [
    | none ↦ sha256 (deterministic_stringify (obj event.rest))
    | some line ↦
        if str_eq line "" then sha256 (deterministic_stringify (obj event.rest)) else sha256 line
  ]

  -- The loop; `prev` is `prevHash` and `count` is `events.length`.
  unfoldable pub verify_from : ℕ → Option String → List ChainEvent → ChainVerifyResult
  verify_from count prev [] = valid count
  verify_from count prev (event ∷ es) =
      if str_eq (compute_event_hash event) event.hash
      then if link_ok prev event
        then verify_from count (some event.hash) es
        else invalid count event.seq (link_reason prev event)
      else invalid count event.seq (hash_mismatch (compute_event_hash event) event.hash)

  unfoldable pub verify_chain : List ChainEvent → ChainVerifyResult
  unfolding verify_from
  verify_chain events = verify_from (length events) none (sort_by (λ e. e.seq) events)
