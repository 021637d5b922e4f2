-- ===== src/Exporter.antt =====
-- The OpenTelemetry exporter: apps/otel-exporter/src/jsonl-reader.ts, span-builder.ts and
-- trace-buffer.ts.
pub mod Reader
mod Lines
mod Growing
mod Polled
mod Followed
pub mod Span
pub mod Buffer
mod Buffered
mod Flushed
mod Tests
mod BufferTests
