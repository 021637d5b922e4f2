-- ===== src/RateLimits.antt =====
-- Rate limits of the e-mail endpoints: packages/backend/src/lib/rate-limit-store.ts and
-- packages/backend/src/middleware/email-rate-limit.ts. Times are whole seconds.
pub mod Store
pub mod Email
mod Counted
mod Limited
mod Retry
mod Tests
