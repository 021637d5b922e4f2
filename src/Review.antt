-- ===== src/Review.antt =====
-- The proposals and escalations of the AI supervisor:
-- packages/backend/src/trpc/routers/supervisor.ts, the inserts of supervisor-tools.ts, and
-- packages/backend/src/jobs/timeout-checker.ts. Times are natural numbers of milliseconds.
pub mod Table
pub mod Proposals
pub mod Escalations
pub mod Timeout
pub mod Lifecycle
mod Decisions
mod Listed
pub mod EscalationLife
pub mod EscalationColumns
mod Tests
use loopstorm_guard.Common.{String}

-- What a mutation returns or throws. `S` is the type of the status column.
pub data ReviewError (S : Type 0) : Type 0 where
  not_found : ReviewError S
  wrong_status : S → ReviewError S
  changed_concurrently : ReviewError S

pub data Answer (S A : Type 0) : Type 0 where
  done : A → Answer S A
  refused : ReviewError S → Answer S A
