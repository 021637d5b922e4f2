-- ===== src/Review/Tests.antt =====
-- The reviews at a concrete table.
use loopstorm_guard.Common.{◌≡◌, ◌≢◌, refl, String, none, some, List, [], ◌∷◌, Option, ℕ}
use loopstorm_guard.Review.{Answer, done, refused}
use loopstorm_guard.Review.Table.{Grows, first_where}
use loopstorm_guard.Review.Proposals.{
  Proposal, ProposalStatus, pending, approved, rejected, NewProposal, pending_row, reviewed, review,
  is_open_own, is_own,
}
use loopstorm_guard.Review.Timeout.{
  ReviewDb, run_timeout_check, run_timeout_check-IsSettled, IsSettled,
}
use loopstorm_guard.Review.Lifecycle.{
  ProposalCall, approve, reject, create, learn, expire, run, Evolves, run-Grows, IsConsistent,
  run-IsConsistent,
}
use loopstorm_guard.Review.Escalations.{
  Escalation, NewEscalation, open_row, acknowledged_row, resolved_row, expired_row,
}
use loopstorm_guard.Review.EscalationLife.{
  EscalationCall, acknowledge, resolve, run_escalations, Moves, run_escalations-Grows,
}
use loopstorm_guard.Review.Proposals.{list_proposals}
use loopstorm_guard.Review.Escalations.{list_escalations}
use loopstorm_guard.Review.Decisions.{second_review-refused}

abbrev ask : String → NewProposal
ask id = record {
  id = id;
  tenant_id = "t1";
  proposal_id = id;
  proposal_type = "budget_adjustment";
  content = "";
}

abbrev table : List Proposal
table = pending_row (ask "p1") 1000 ∷ pending_row (ask "p2") 2000 ∷ []

-- The second proposal is pending for longer than a day.
abbrev history : List ProposalCall
history =
    create ("supervisor" ∷ []) (ask "p3") 3000
    ∷ create [] (ask "p4") 3000
    ∷ approve "p1" "t2" "u" none 4000 table
    ∷ approve "p1" "t1" "u" none 5000 table
    ∷ reject "p1" "t1" "v" "no" 6000 table
    ∷ expire 86_402_500
    ∷ []

history_test :
    run history table
    ≡ reviewed approved "u" none 5000 (pending_row (ask "p1") 1000)
      ∷ record (pending_row (ask "p2") 2000) {
        status = loopstorm_guard.Review.Proposals.expired;
        updated_at = 86_402_500;
      }
      ∷ pending_row (ask "p3") 3000
      ∷ []
unfolding run loopstorm_guard.Review.Lifecycle.step
    loopstorm_guard.Review.Proposals.expire_proposals loopstorm_guard.Review.Table.update_where
    review loopstorm_guard.Review.Table.first_where loopstorm_guard.Review.Proposals.create_proposal
history_test = refl

run-Grows_example : Grows Evolves table (run history table)
run-Grows_example = run-Grows history table

abbrev p1_reviewed : Proposal
p1_reviewed = reviewed approved "u" none 5000 (pending_row (ask "p1") 1000)

p1_done : (review approved "p1" "t1" "u" none 5000 table table).1 ≡ done p1_reviewed
unfolding review loopstorm_guard.Review.Table.first_where
p1_done = refl

second_review-refused_example :
    (review rejected "p1" "t1" "v"
      (some "no")
      6000
      table
      (review approved "p1" "t1" "u" none 5000 table table).0).1
    ≢ done p1_reviewed
second_review-refused_example =
    second_review-refused approved refl "p1" "t1" "u" none 5000 table table p1_reviewed p1_done
      rejected "v" (some "no") 6000 table p1_reviewed

abbrev db : ReviewDb
db = record { proposals = table; escalations = [] }

run_timeout_check-IsSettled_example :
    IsSettled 86_402_500 db (run_timeout_check 86_402_500 db).0 (run_timeout_check 86_402_500 db).1
run_timeout_check-IsSettled_example = run_timeout_check-IsSettled 86_402_500 db

abbrev raise : String → Option ℕ → NewEscalation
raise id timeout_seconds = record {
  id = id;
  tenant_id = "t1";
  escalation_id = id;
  severity = "high";
  content = "";
  timeout_seconds = timeout_seconds;
}

abbrev escalations : List Escalation
escalations = open_row (raise "e1" none) 1000 ∷ open_row (raise "e2" (some 60)) 1000 ∷ []

-- The first escalation is resolved, the second one expires, and is resolved too late.
abbrev handling : List EscalationCall
handling =
    acknowledge "e1" "t1" "u" none 5000 escalations
    ∷ resolve "e1" "t1" none 6000 (open_row (raise "e1" none) 1000 ∷ [])
    ∷ resolve "e1" "t1" none 7000
        (acknowledged_row "u" none 5000 (open_row (raise "e1" none) 1000) ∷ [])
    ∷ EscalationCall.expire 61_001
    ∷ acknowledge "e2" "t1" "u" none 70_000 escalations
    ∷ []

handling_test :
    run_escalations handling escalations
    ≡ resolved_row none 7000 (acknowledged_row "u" none 5000 (open_row (raise "e1" none) 1000))
      ∷ expired_row 61_001 (open_row (raise "e2" (some 60)) 1000)
      ∷ []
unfolding run_escalations loopstorm_guard.Review.EscalationLife.step_escalations
    loopstorm_guard.Review.Escalations.acknowledge_escalation first_where
    loopstorm_guard.Review.Table.update_where loopstorm_guard.Review.Escalations.expire_escalations
    loopstorm_guard.Review.Escalations.resolve_escalation
handling_test = refl

run_escalations-Grows_example : Grows Moves escalations (run_escalations handling escalations)
run_escalations-Grows_example = run_escalations-Grows handling escalations

abbrev later : List Escalation
later = open_row (raise "e1" none) 1000 ∷ open_row (raise "e2" (some 60)) 2000 ∷ []
