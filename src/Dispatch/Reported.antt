-- ===== src/Dispatch/Reported.antt =====
-- From a batch that ends a run to the supervisor.
use loopstorm_guard.Common.{
  ℕ, ◌≡◌, inl, inr, refl, ◌∙◌, ap, String, true, false, Option, none, some, List, [], ◌∷◌, ◌++◌,
  ◌+◌, suc, arith, map, length, All, Any, Any-append-right, str_eq, if_either,
}
use loopstorm_guard.Common.Sort.{sort_by}
use loopstorm_guard.Triggers.{RunSummary, TriggerResult, evaluate_post_run_triggers}
use loopstorm_guard.Triggers.Fired.{
  Has, DuePostRun, due_cost, evaluate_post_run_iff, evaluate_post_run-named,
}
use loopstorm_guard.Ingest.Batch.{
  ParsedEvent, Item, ok, ◌>>=◌, parse_lines, seq_of, check_seqs, verify_batch_chain,
}
use loopstorm_guard.Ingest.Store.{Db, RunRow, find_run, ended_status, new_status, sum_of, cost_of}
use loopstorm_guard.Ingest.Handler.{
  ingest, ingest_items, single_run, check_tenant, store_batch, batch_outcome, Outcome, last_item,
  prev_run_hash, is_terminal, dispatch_triggers, summary_of, old_cost,
}
use loopstorm_guard.Ingest.Checked.{>>=-ok}
use loopstorm_guard.Supervisor.{QueuedTrigger, Log, happen_all}
use loopstorm_guard.Dispatch.{as_happening, body_of, dispatch_trigger, message_of, send_triggers}
use loopstorm_guard.Dispatch.Delivered.{IsComplete, HasRoom, direct_lem, happen_all-taken}

ended_status-is_terminal : (s : Option String) → is_terminal (ended_status s) ≡ true
unfolding is_terminal ended_status
ended_status-is_terminal none = refl
ended_status-is_terminal (some s) =
    let Ends : String → Type 0 = λ x. is_terminal x ≡ true in
    if_either Ends (str_eq s "budget_exceeded") _ _ refl (
      if_either Ends (str_eq s "loop_terminated") _ _ refl
        (if_either Ends (str_eq s "policy_terminated") _ _ refl refl))

-- A batch whose last event is `run_ended` ends the run.
new_status-last :
    (x : Item) (xs : List Item) (status : Option String)
    → (last_item x xs).event.event_type ≡ "run_ended"
    → new_status status (x ∷ xs) ≡ some (ended_status (last_item x xs).event.run_status)
unfolding new_status
new_status-last x [] status h = rw (h) refl
new_status-last x (y ∷ ys) status h = new_status-last y ys _ h

-- What an accepted batch dispatches.
ingest_items-dispatched :
    (parse_event_line : String → Option ParsedEvent) (sha256 : String → String)
    (run_id tenant_id : String) (db : Db) (items : List Item) (x : Item) (xs : List Item)
    (out : Outcome)
    → single_run items ≡ ok run_id
    → sort_by seq_of items ≡ x ∷ xs
    → ingest_items parse_event_line sha256 tenant_id db items ≡ ok out
    → batch_outcome run_id tenant_id db (find_run run_id tenant_id db.runs) x xs ≡ out
unfolding ingest_items store_batch
ingest_items-dispatched parse_event_line sha256 run_id tenant_id db items x xs out one sorted h =
    let existing : Option RunRow = find_run run_id tenant_id db.runs in
    let h1 = rw (one, ◌>>=◌) at h in
    let (_, seqs, h2) = >>=-ok (check_seqs (sort_by seq_of items)) _ h1 in
    let (_, _, h3) = >>=-ok (check_tenant tenant_id existing) _ h2 in
    let (_, chain, h4) =
      >>=-ok (verify_batch_chain sha256 (sort_by seq_of items) (prev_run_hash existing)) _ h3 in
    let stored : store_batch run_id tenant_id db existing (x ∷ xs) ≡ ok out = rw (sorted) at h4 in
    ground arith

batch_outcome-dispatched :
    (run_id tenant_id : String) (db : Db) (existing : Option RunRow) (x : Item) (xs : List Item)
    → (last_item x xs).event.event_type ≡ "run_ended"
    → (cost : ℕ) × ((batch_outcome run_id tenant_id db existing x xs).dispatched
        ≡ evaluate_post_run_triggers
            (record { status = ended_status (last_item x xs).event.run_status; total_cost = cost })
            (map summary_of (x ∷ xs))
            none)
unfolding batch_outcome dispatch_triggers
batch_outcome-dispatched run_id tenant_id db existing x xs h =
    let final = new_status-last x xs none h in
    let ended = ended_status-is_terminal (last_item x xs).event.run_status in
    (old_cost existing + sum_of cost_of (x ∷ xs), rw (final, ended) refl)

sent_lem :
    (url : String) (key : Option String) (run_id tenant_id now : String) (ts : List TriggerResult)
    → str_eq url "" ≡ false
    → send_triggers
        (record { supervisor_url = some url; supervisor_key = key })
        run_id
        tenant_id
        now
        ts
      ≡ map (dispatch_trigger url key) (map (message_of run_id tenant_id now) ts)
unfolding send_triggers
sent_lem url key run_id tenant_id now [] is_url = refl
sent_lem url key run_id tenant_id now (t ∷ ts) is_url =
    let m = message_of run_id tenant_id now t in
    rw (direct_lem url key m is_url, sent_lem url key run_id tenant_id now ts is_url) refl

messages-IsComplete :
    (run_id tenant_id now : String) (ts : List TriggerResult)
    → str_eq run_id "" ≡ false
    → str_eq tenant_id "" ≡ false
    → All (λ t. str_eq t.trigger "" ≡ false) ts
    → All IsComplete (map (message_of run_id tenant_id now) ts)
messages-IsComplete run_id tenant_id now [] is_run is_tenant named = tt
messages-IsComplete run_id tenant_id now (t ∷ ts) is_run is_tenant (name, named) = (
  rw (name, is_run, is_tenant) refl,
  messages-IsComplete run_id tenant_id now ts is_run is_tenant named,
)

length-messages :
    (run_id tenant_id now : String) (ts : List TriggerResult)
    → length (map (message_of run_id tenant_id now) ts) ≡ length ts
length-messages run_id tenant_id now [] = refl
length-messages run_id tenant_id now (t ∷ ts) = ap suc (length-messages run_id tenant_id now ts)

Has-messages :
    (run_id tenant_id now : String) (ts : List TriggerResult) (t : TriggerResult)
    → Has ts t
    → Any
        (λ b. b ≡ body_of (message_of run_id tenant_id now t))
        (map body_of (map (message_of run_id tenant_id now) ts))
unfolding Has
Has-messages run_id tenant_id now [] t h = absurd h
Has-messages run_id tenant_id now (s ∷ ts) t (inl e) =
    inl (ap (λ u. body_of (message_of run_id tenant_id now u)) e)
Has-messages run_id tenant_id now (s ∷ ts) t (inr h) =
    inr (Has-messages run_id tenant_id now ts t h)

module _ (url : String) (key : Option String) (is_url : str_eq url "" ≡ false)
    (run_id tenant_id now : String) (is_run : str_eq run_id "" ≡ false)
    (is_tenant : str_eq tenant_id "" ≡ false) (log : Log) where
  -- The triggers that the supervisor has after those of a run.
  abbrev pub taken_after : List TriggerResult → List QueuedTrigger
  taken_after ts =
      (happen_all key
        (map as_happening (
          send_triggers (record { supervisor_url = some url; supervisor_key = key }) run_id
            tenant_id now ts))
        log).taken

  sent-taken :
      (ts : List TriggerResult) (t : TriggerResult)
      → All (λ u. str_eq u.trigger "" ≡ false) ts
      → HasRoom (length ts) log.supervisor
      → Has ts t
      → Any (λ b. b ≡ body_of (message_of run_id tenant_id now t)) (taken_after ts)
  sent-taken ts t named room h =
      let messages = map (message_of run_id tenant_id now) ts in
      let complete = messages-IsComplete run_id tenant_id now ts is_run is_tenant named in
      let fits : HasRoom (length messages) log.supervisor =
        rw (length-messages run_id tenant_id now ts) room in
      let taken : taken_after ts ≡ log.taken ++ map body_of messages =
        ap (λ rs. (happen_all key (map as_happening rs) log).taken)
          (sent_lem url key run_id tenant_id now ts is_url)
        ∙ happen_all-taken url key messages log complete fits in
      rw (taken) (
        Any-append-right (λ b. b ≡ body_of (message_of run_id tenant_id now t)) log.taken
          (map body_of messages) (Has-messages run_id tenant_id now ts t h))

  -- When a batch is accepted whose last event, by `seq`, is `run_ended`, the backend has the
  -- supervisor's address, both have the same key, the ids of the run and the tenant are not empty,
  -- and the supervisor has room for the triggers of the batch: then, if their requests reach it with
  -- nothing in between, the supervisor takes each trigger that is due for the status that
  -- `run_ended` gives and the decisions of the batch, with its priority, the run and the tenant.
  pub ended_run-taken :
      (parse_event_line : String → Option ParsedEvent) (sha256 : String → String) (db : Db)
      (lines : List String) (items : List Item) (x : Item) (xs : List Item) (out : Outcome)
      (t : TriggerResult)
      → parse_lines parse_event_line 0 lines ≡ ok items
      → single_run items ≡ ok run_id
      → sort_by seq_of items ≡ x ∷ xs
      → (last_item x xs).event.event_type ≡ "run_ended"
      → ingest parse_event_line sha256 tenant_id db lines ≡ ok out
      → HasRoom (length out.dispatched) log.supervisor
      → DuePostRun
          (record { status = ended_status (last_item x xs).event.run_status; total_cost = 0 })
          (map summary_of (x ∷ xs))
          none
          t
      → Any (λ b. b ≡ body_of (message_of run_id tenant_id now t)) (taken_after out.dispatched)
  unfolding ingest
  ended_run-taken parse_event_line sha256 db lines items x xs out t parsed one sorted ends h room
        due =
      let status = ended_status (last_item x xs).event.run_status in
      let events = map summary_of (x ∷ xs) in
      let same =
        ingest_items-dispatched parse_event_line sha256 run_id tenant_id db items x xs out one
          sorted (rw (parsed, ◌>>=◌) at h) in
      let (cost, sent) =
        batch_outcome-dispatched run_id tenant_id db (find_run run_id tenant_id db.runs) x xs
          ends in
      let run : RunSummary = record { status = status; total_cost = cost } in
      let fired : out.dispatched ≡ evaluate_post_run_triggers run events none = rw (← same) sent in
      sent-taken out.dispatched t (rw (fired) (evaluate_post_run-named run events none)) room (
        rw (fired)
          ((evaluate_post_run_iff run events none t).1 (due_cost status 0 cost events t due)))
