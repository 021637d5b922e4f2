-- ===== src/Ingest.antt =====
-- packages/backend/src/trpc/routers/events.ts: the batch ingest of audit log lines.
pub mod Batch
pub mod Store
pub mod Handler
pub mod Chained
mod Lookup
pub mod Checked
pub mod Recorded
pub mod Accepted
pub mod Rejected
pub mod Tests
