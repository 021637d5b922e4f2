-- ===== src/Policies.antt =====
-- Policy packs: packages/backend/src/lib/policy-validate.ts and
-- packages/backend/src/trpc/routers/policies.ts.
pub mod Content
pub mod Validate
mod Described
mod Checks
mod Accepted
pub mod Router
mod History
mod Versions
mod Tests
