-- ===== src/ApiKeys.antt =====
-- API keys: packages/backend/src/lib/api-key-gen.ts, packages/backend/src/middleware/api-key.ts and
-- packages/backend/src/trpc/routers/api-keys.ts.
pub mod Keys
mod Revoked
mod Headers
mod Created
mod Tests
