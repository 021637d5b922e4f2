-- ===== src/Ingest/Store.antt =====
-- The tables `runs` and `events`, and what the handler reads and writes in them. The primary key of
-- `runs` is `run_id`; (`run_id`, `seq`) is unique in `events`. Dates are kept as texts;
-- `updated_at` is left out.
use loopstorm_guard.Common.{
  ℕ, ◌+◌, String, Bool, true, false, ◌&&◌, Option, none, some, List, [], ◌∷◌, ◌++◌, ◌==◌,
  if◌then◌else◌, str_eq, any,
}
use loopstorm_guard.Ingest.Batch.{ParsedEvent, Item}

pub record RunRow : Type 0 where
  pub run_id : String
  pub tenant_id : String
  pub agent_name : Option String
  pub agent_role : Option String
  pub environment : Option String
  pub policy_pack_id : Option String
  pub status : String
  pub event_count : ℕ
  pub last_seq : ℕ
  pub last_hash : Option String
  pub total_cost : ℕ
  pub total_input_tokens : ℕ
  pub total_output_tokens : ℕ
  pub total_call_count : ℕ
  pub started_at : String
  pub ended_at : Option String

pub record EventRow : Type 0 where
  pub run_id : String
  pub tenant_id : String
  pub event : ParsedEvent
  pub raw_line : String

pub record Db : Type 0 where
  pub runs : List RunRow
  pub events : List EventRow

abbrev pub is_run : String → String → RunRow → Bool
is_run run_id tenant_id r = str_eq r.run_id run_id && str_eq r.tenant_id tenant_id

-- `where run_id = … and tenant_id = … limit 1`.
unfoldable pub find_run : String → String → List RunRow → Option RunRow
find_run run_id tenant_id [] = none
find_run run_id tenant_id (r ∷ rs) =
    if is_run run_id tenant_id r then some r else find_run run_id tenant_id rs

-- `update … set … where run_id = … and tenant_id = …`.
unfoldable pub update_run : String → String → (RunRow → RunRow) → List RunRow → List RunRow
update_run run_id tenant_id f [] = []
update_run run_id tenant_id f (r ∷ rs) =
    (if is_run run_id tenant_id r then f r else r) ∷ update_run run_id tenant_id f rs

-- `insert … on conflict (run_id) do nothing`.
unfoldable pub insert_run : RunRow → List RunRow → List RunRow
insert_run r rs = if any (λ x. str_eq x.run_id r.run_id) rs then rs else rs ++ r ∷ []

-- (`run_id`, `seq`) of the row is taken.
abbrev pub is_taken : EventRow → List EventRow → Bool
is_taken row = any (λ x. str_eq x.run_id row.run_id && x.event.seq == row.event.seq)

-- `insert … on conflict (run_id, seq) do nothing`, row by row, with the number of rows inserted.
-- The handler sends the rows in groups of 100, in order.
unfoldable pub insert_events : List EventRow → List EventRow → List EventRow × ℕ
insert_events [] events = (events, 0)
insert_events (row ∷ rows) events =
    let taken = is_taken row events in
    let (events', n) = insert_events rows (if taken then events else events ++ row ∷ []) in
    (events', if taken then n else n + 1)

-- The sums over a batch (step 7). A null or zero value adds nothing.
abbrev or_zero : Option ℕ → ℕ
or_zero none = 0
or_zero (some n) = n

unfoldable pub sum_of : (Item → ℕ) → List Item → ℕ
sum_of f [] = 0
sum_of f (x ∷ xs) = f x + sum_of f xs

abbrev pub cost_of : Item → ℕ
cost_of x = or_zero x.event.estimated_cost

abbrev pub input_tokens_of : Item → ℕ
input_tokens_of x = or_zero x.event.input_tokens

abbrev pub output_tokens_of : Item → ℕ
output_tokens_of x = or_zero x.event.output_tokens

-- `event.decision` counts when it is a non-empty text.
abbrev is_decided : Option String → Bool
is_decided none = false
is_decided (some d) = if str_eq d "" then false else true

abbrev pub calls_of : Item → ℕ
calls_of x =
    if str_eq x.event.event_type "policy_decision" && is_decided x.event.decision then 1 else 0

abbrev pub is_type : String → Item → Bool
is_type t x = str_eq x.event.event_type t

-- The engine's `run_status` as the status column.
unfoldable pub ended_status : Option String → String
ended_status none = "completed"
ended_status (some s) =
    if str_eq s "budget_exceeded"
    then "terminated_budget"
    else if str_eq s "loop_terminated"
    then "terminated_loop"
    else if str_eq s "policy_terminated"
    then "terminated_policy"
    else "completed"

-- The loop that sets `newStatus`: the last `run_started` or `run_ended` decides.
unfoldable pub new_status : Option String → List Item → Option String
unfolding ended_status
new_status status [] = status
new_status status (x ∷ xs) =
    new_status
      (if is_type "run_started" x
        then some "started"
        else if is_type "run_ended" x
        then some (ended_status x.event.run_status)
        else status)
      xs

-- `startedAt` and `endedAt`: the time of the last event of the type.
unfoldable pub time_of : String → Option String → List Item → Option String
time_of type time [] = time
time_of type time (x ∷ xs) = time_of type (if is_type type x then some x.event.ts else time) xs
