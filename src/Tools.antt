-- ===== src/Tools.antt =====
-- The procedures of packages/backend/src/trpc/routers/supervisor-tools.ts that the supervisor's
-- tools call, without the inserts of proposals and escalations, and the tools that read.
pub mod Schema
pub mod Emit
mod Refused
pub mod Baseline
mod Tenant
mod Fresh
pub mod Reads
pub mod Interpret
mod Breach
pub mod Analysis
mod Tests
