-- ===== src/Lib.antt =====
-- LoopStorm Guard: the hosted backend (packages/backend), the server of the supervisor process
-- (apps/supervisor), the OpenTelemetry exporter (apps/otel-exporter), the guard that a program calls
-- its tools through (apps/shim-ts, packages/ipc-client) and the proxy for MCP tools
-- (apps/mcp-proxy), as a model of their event, run, policy, trigger, review and rate limit code with
-- the properties that make it correct.
--
-- The engine writes an audit log of JSON lines, each with a hash and the hash of the line before.
-- Batches of lines come to `events.ingest`, which checks them and stores them with the aggregates
-- of their run; a run that has ended is tested for supervisor triggers. `verify.chain` reads the
-- stored events of a run page by page and checks the chain again. Triggers wait in a queue that a
-- poll empties into requests to the supervisor. The lists of runs, events,
-- proposals and escalations are read page by page as well. The supervisor writes proposals and
-- escalations, which people review and a timer expires; its server starts at most five sessions at
-- once for the triggers that it gets, and lets the others wait. Policies are validated when they are
-- written, and written with a version that guards against lost updates. The endpoints that send
-- e-mails count their requests in buckets of fixed windows. An API key is stored as its hash. The
-- exporter follows the audit log of an engine; the guard of the shim asks the engine before each
-- call of a tool. A session of the supervisor lets a language model call its tools, within limits,
-- and reports what it does as a chain of events; its tools read runs, baselines and policies of the
-- backend. The MCP proxy shows the tools of its upstreams, and asks the engine before it forwards a
-- call.
--
-- Files, and what they model (paths below packages/backend/src, unless they start with apps):
--   Common                  lists, Boolean tests, maps as association lists, stable sorting
--   TriggerQueue            lib/trigger-queue.ts: class TriggerQueue with enqueue, dequeue, size and
--                           cleanupDedup; Call and step are a client's history of calls
--   Triggers                lib/triggers.ts: evaluatePostRunTriggers, evaluateMidRunTriggers
--   Json                    JSON.stringify of texts and deterministicStringify of lib/chain-verify.ts,
--                           and the members of an object
--   ChainVerify             lib/chain-verify.ts: verifyChain, computeEventHash
--   Ingest/Batch            trpc/routers/events.ts: steps 1 to 4 and verifyBatchChain
--   Ingest/Store            the tables runs and events of db/schema.ts with the reads and writes of
--                           the handler, and the sums over a batch
--   Ingest/Handler          the whole of events.ingest
--   Ingest/Chained, Lookup, Checked, Recorded, Accepted, Rejected
--                           proofs about stored chains, table reads, accepted and refused batches
--   Paging                  order by, the cursor and the extra row of the list procedures
--   Queries                 trpc/routers/runs.ts (list, get, getEvents) and verify.ts (chain)
--   Review/Proposals, Review/Escalations
--                           trpc/routers/supervisor.ts, and the inserts of supervisor-tools.ts
--   Review/Timeout          jobs/timeout-checker.ts
--   Review/Table, Lifecycle, EscalationLife, EscalationColumns, Decisions, Listed
--                           updates by a condition, histories of operations, concurrent reviews,
--                           pages of the lists
--   Supervisor              apps/supervisor/src/index.ts: the trigger endpoint, processTrigger and
--                           drainQueue; Bounded and Live hold the proofs
--   Dispatch                lib/trigger-dispatch.ts: dispatchTriggerDirect, drainQueue, and the loop
--                           at the end of events.ingest that sends the triggers; the proofs about
--                           the queue are in Delivered, those about ended runs in Reported
--   Session/Sanitize        apps/supervisor/src/lib/sanitize.ts
--   Session/Events, Session/Calls, Session/Turns
--                           apps/supervisor/src/session.ts: emitEvent, the loop over the tool
--                           calls, and execute; the proofs are in Bounded and Chained
--   Risk                    apps/supervisor/src/lib/risk-score.ts, with its proofs in Graded
--   Tools/Schema, Tools/Emit
--                           trpc/routers/supervisor-tools.ts: emitEvent, with the zod schema of its
--                           input and what apps/supervisor/src/session.ts sends it
--   Tools/Baseline, Tools/Reads
--                           of the same file: getAgentBaseline and its cache; getRunEvents,
--                           getPolicyPack and querySimilarRuns
--   Tools/Interpret, Tools/Analysis
--                           apps/supervisor/src/tools/interpretation.ts, lib/loop-analysis.ts and
--                           lib/recovery-eval.ts
--   Tools/Refused, Tenant, Fresh, Breach
--                           proofs about refused events, keys of the cache, cached answers and the
--                           score of a run
--   Policies/Content, Policies/Validate
--                           parsed JSON, and lib/policy-validate.ts: validatePolicy
--   Policies/Router         trpc/routers/policies.ts: list, get, create and update
--   Policies/Described, Checks, Accepted, History, Versions
--                           what a policy is, what the validator accepts, stored policies,
--                           concurrent updates
--   RateLimits/Store, RateLimits/Email
--                           lib/rate-limit-store.ts and middleware/email-rate-limit.ts; the proofs
--                           are in Counted, Limited and Retry
--   ApiKeys/Keys            lib/api-key-gen.ts, middleware/api-key.ts and trpc/routers/api-keys.ts;
--                           the proofs are in Revoked, Headers and Created
--   Exporter/Reader         apps/otel-exporter/src/jsonl-reader.ts: loadCursor, readNewBytes,
--                           parseLine, processOnce and the beginning of start; the proofs are in
--                           Lines, Growing, Polled and Followed
--   Exporter/Span, Exporter/Buffer
--                           apps/otel-exporter/src/span-builder.ts and trace-buffer.ts; the proofs
--                           are in Buffered and Flushed
--   Shim/Jcs, Shim/Guard    packages/ipc-client/src/jcs.ts, args-hash.ts and protocol.ts, and
--                           apps/shim-ts/src/guard.ts: check, send, handleDecision, wrap; the
--                           proofs are in Canonical and Enforced
--   Shim/Connection         packages/ipc-client/src/connection.ts: recvResponse, with what the socket
--                           reports during each wait; Framed holds the proofs
--   Proxy                   apps/mcp-proxy/src/proxy.ts and mapping.ts; the proofs are in Listed
--                           and Forwarded
--   Spans                   apps/otel-exporter/src/span-status.ts, with its proofs in Errors
--
-- Parameters: `sha256` is the hash function of node:crypto, any function from texts to texts;
-- `parse_event_line` is JSON.parse with the zod schema of events.ts, any partial function, of
-- which some theorems use that it fails on the empty text; `picomatch` is the glob matcher of
-- that name, `to_lower` is toLowerCase and `json_parse` is JSON.parse, each any function that may
-- fail where the original throws; `time_of` is the time of a text that Date reads.
-- `SessionParams` holds what the model answers to a conversation, how the handler of a tool ends
-- at each call, and whether the backend confirms an event. An `Engine` is what the two attempts
-- of the guard to ask the engine bring back, and the proxy takes how its wait for the next
-- response on the connection ends, whichever request that answers. `list_tools` connects to an
-- upstream and asks for its tools; `from_json` reads a response from a line. `Formats` holds what
-- zod tests of the contents of a text or a number, `Sql` the functions AVG and PERCENTILE_CONT
-- and the printing of a number, and `Units` how the text of a number is read in the units of the
-- risk score.
--
-- Numbers: all are naturals. Times are milliseconds, a cost is a whole number of one fixed unit,
-- and an average rate is a fraction, so that the comparisons with 0.7, 0.8 and 0.5 are exact; the
-- rounding of floating-point numbers is not modelled. The loop of `verify.chain` is a recursion
-- on fuel, and more fuel than the run has events is proved to be enough; the loop of a session
-- has fuel for 101 turns, and a turn that goes on makes at least one of the hundred calls. The
-- drain of the trigger queue has fuel as well, and more than it has messages is proved to be
-- enough. The costs of a session are counted in hundred-millionths of a dollar. In the risk score
-- the change of a token rate is counted in thousandths.
--
-- The input schemas of the procedures are taken as checked. A database transaction is one step.
-- The reviews take the table at their select and the table at their update apart, since another
-- transaction may come between the two. Rows with one sort key keep the order of the table, which
-- SQL leaves open. Columns that are only copied stand in one text; `updated_at` is left out of
-- `runs`. A file that the exporter reads is a list of bytes, of which each read decodes the new
-- ones by themselves; `decode` is Buffer.toString("utf8"). What the socket of the guard reports
-- while nobody waits for it is lost, and waits on one connection follow one another.
--
-- Not modelled: errors of the database itself except in the rate limits, timers, the responses to
-- dispatched triggers, the texts of messages and logs and of a risk assessment, and the other parts
-- of the repository: the supervisor's tools that pass their input on to the backend, the attributes
-- and ids of spans, what the guard's connection writes, the configuration of the MCP proxy, the proxy
-- object around OpenAI clients, the authentication and the web application.
pub mod Common
pub mod TriggerQueue
pub mod Triggers
pub mod Json
pub mod ChainVerify
pub mod Ingest
pub mod Paging
pub mod Queries
pub mod Review
pub mod Supervisor
pub mod Dispatch
pub mod Session
pub mod Risk
pub mod Tools
pub mod Policies
pub mod RateLimits
pub mod ApiKeys
pub mod Spans
pub mod Exporter
pub mod Shim
pub mod Proxy
