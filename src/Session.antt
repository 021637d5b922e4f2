-- ===== src/Session.antt =====
-- A session of the supervisor: apps/supervisor/src/session.ts, with lib/sanitize.ts and the names
-- of tools/registry.ts.
pub mod Sanitize
pub mod Events
pub mod Calls
pub mod Turns
mod Bounded
mod Chained
mod Tests
