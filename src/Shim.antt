-- ===== src/Shim.antt =====
-- The TypeScript shim: apps/shim-ts/src/guard.ts, with the canonical JSON of
-- packages/ipc-client/src/jcs.ts and args-hash.ts.
pub mod Jcs
pub mod Guard
pub mod Connection
mod Framed
mod FramedTests
mod Canonical
mod Enforced
mod Tests
