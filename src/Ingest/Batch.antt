-- ===== src/Ingest/Batch.antt =====
-- The checks of a batch: parsing, one run, consecutive sequence numbers, and the hash chain.
-- `JSON.parse` with the zod schema is the parameter `parse_event_line`, the hash function of
-- `node:crypto` is `sha256`. Token counts and costs are natural numbers, a cost in one fixed unit;
-- the optional columns that the router only copies are in `other`.
use loopstorm_guard.Common.Texts.{trim_end}
use loopstorm_guard.Common.{
  ℕ, ◌+◌, String, Bool, false, not, Option, none, some, List, [], ◌∷◌, ◌==◌, if◌then◌else◌, str_eq,
  opt_str_eq, any,
}
use loopstorm_guard.Json.{Fields}

pub record ParsedEvent : Type 0 where
  pub event_type : String
  pub run_id : String
  pub seq : ℕ
  pub ts : String
  pub hash : String
  pub hash_prev : Option String
  pub agent_name : Option String
  pub agent_role : Option String
  pub environment : Option String
  pub policy_pack_id : Option String
  pub decision : Option String
  pub run_status : Option String
  pub input_tokens : Option ℕ
  pub output_tokens : Option ℕ
  pub estimated_cost : Option ℕ
  pub other : Fields

-- A parsed event with its raw line.
pub record Item : Type 0 where
  pub event : ParsedEvent
  pub raw_line : String

pub data IngestError : Type 0 where
  bad_line : (index : ℕ) → IngestError
  mixed_runs : IngestError
  no_events : IngestError
  duplicate_seq : (seq : ℕ) → IngestError
  seq_gap : (expected got : ℕ) → IngestError
  forbidden : IngestError
  hash_mismatch : (seq : ℕ) (computed stored : String) → IngestError
  link_failure : (seq : ℕ) (hash_prev expected : Option String) → IngestError

-- A step of the handler: it throws, or goes on with a value.
pub data Result {ℓ} (T : Type ℓ) : Type ℓ where
  fail : (error : IngestError) → Result T
  ok : (value : T) → Result T

infixl 5 ◌>>=◌
abbrev pub ◌>>=◌ {ℓ κ} :
    {T : Type ℓ} {U : Type κ} (step : Result T) (next : T → Result U) → Result U
fail error >>= next = fail error
ok value >>= next = next value

module _ (parse_event_line : String → Option ParsedEvent) where
  abbrev pub parse_item : ℕ → String → Result Item
  parse_item i raw = elim (parse_event_line raw) [
    | none ↦ fail (bad_line i)
    | some event ↦ ok (record { event = event; raw_line = raw })
  ]

  -- Step 1. An empty line is passed over.
  unfoldable pub parse_lines : ℕ → List String → Result (List Item)
  parse_lines i [] = ok []
  parse_lines i (line ∷ lines) =
      let rest = parse_lines (i + 1) lines in
      if str_eq line ""
      then rest
      else do item ← parse_item i (trim_end line); items ← rest; ok (item ∷ items)

-- Step 2: more than one run id.
unfoldable pub is_mixed : List Item → Bool
is_mixed [] = false
is_mixed (x ∷ xs) = any (λ y. not (str_eq y.event.run_id x.event.run_id)) xs

abbrev pub seq_of : Item → ℕ
seq_of x = x.event.seq

-- Step 4, from the second item on.
unfoldable pub check_seqs_from : ℕ → List Item → Result (Unit {0})
check_seqs_from prev [] = ok tt
check_seqs_from prev (x ∷ xs) =
    if seq_of x == prev
    then fail (duplicate_seq (seq_of x))
    else if seq_of x == prev + 1
    then check_seqs_from (seq_of x) xs
    else fail (seq_gap (prev + 1) (seq_of x))

unfoldable pub check_seqs : List Item → Result (Unit {0})
unfolding check_seqs_from
check_seqs [] = ok tt
check_seqs (x ∷ xs) = check_seqs_from (seq_of x) xs

-- Step 6, `verifyBatchChain`: `prev` is the run's last hash, and then the previous event's hash.
module _ (sha256 : String → String) where
  unfoldable pub verify_batch_chain : List Item → Option String → Result (Unit {0})
  verify_batch_chain [] prev = ok tt
  verify_batch_chain (x ∷ xs) prev =
      if str_eq (sha256 x.raw_line) x.event.hash
      then if opt_str_eq x.event.hash_prev prev
        then verify_batch_chain xs (some x.event.hash)
        else fail (link_failure (seq_of x) x.event.hash_prev prev)
      else fail (hash_mismatch (seq_of x) (sha256 x.raw_line) x.event.hash)
