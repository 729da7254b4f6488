-- ===== src/Lib.antt =====
-- The FDOS Runtime (02_Reference_Implementations/FDOS_Runtime/src), a local runtime that lets agents
-- work on the tasks of workflow runs under human approval. Everything it does is an event in an
-- audit log with a hash chain; its state is what `applyRuntimeEvent` makes of the log.
--
-- Paths of the source are below 02_Reference_Implementations/FDOS_Runtime/src.
--
-- The parts, and the files that model them:
--   kernel/errors.js, validation.js, ids.js       Kernel/Result, Kernel/Text, Kernel/Validation
--   kernel/event-log.js                           Kernel/EventLog and its children: `validateActor`,
--     `validateEvent`, `verifyAuditEventChain`, `createAuditEvent`, `append`, `since`
--   domain/action-catalog.js, action-intent.js    Domain/Catalog, Domain/Intent
--   domain/role-registry.js, policy-engine.js     Domain/Roles, Domain/Policy
--   domain/delivery-intent.js                     Domain/Delivery and its children
--   domain/workflow-definition.js                 Domain/Workflow and its children: `assertAcyclic` and
--     the checks of `createWorkflowDefinition` on the steps
--   identity/invocation.js                        Identity: the check of stored receipts
--   runtime/state.js                              Model (the stored objects), Reducer/Store (the maps
--     and `require...`), Reducer/Checks (`verify...`), Reducer/Workflow, Reducer/Approvals,
--     Reducer/Deliveries, Reducer/Outbox and Reducer/Invocations (the cases of the `switch`),
--     Reducer/Apply (`applyRuntimeEvent`, and `rehydrate` of runtime/fdos-runtime.js)
--   domain/verified-worker-receipt.js             Reducer/Checks: the binding of a receipt
--   domain/agent-registry.js                      Domain/Agents: `normalizeDefinition`, `resolveActor`
--   domain/connector-contract.js                  Domain/Connectors and its children: contracts,
--     instances, `resolveOperation`, `normalizeParameters`
--   kernel/sqlite-event-store.js                  Kernel/Store and its children: `append`,
--     `transaction`, `#savepoint`, `#reload`, `verify`, `verifyTransactionRows`
--   runtime/fdos-runtime.js                       Runtime and its children: the commands on tasks
--     (Tasks, Completion, Handoffs), approvals (Approvals), deliveries (Outbox, Reports, Review) and
--     memory (Memories), `executeAuthenticatedCommand` (Authenticated)
--   runtime/authenticated-gateway.js              Runtime/Gateway: `execute`, `dispatch`
--   tests and examples                            Tests
--
-- How they interact: the gateway runs the command of a request under `executeAuthenticatedCommand`,
-- which accepts the invocation and runs the command in one transaction of the store. A command reads
-- the state, checks what must hold, and appends events; `append` writes an event to the store and
-- then applies it to the state in memory. A failed transaction reloads the log and replays it.
-- Runtime/Keeps has the one argument for all commands: they change the runtime by `append`, `now` and
-- identifiers only (the record `Kept`), so what these three keep every command keeps, with a weaker
-- condition, if there is one, for a command that throws; Runtime/Faithful, Runtime/Exact and
-- Runtime/Saved are its instances. Runtime/Guards takes a command that returns apart.
-- Kernel/Exec/Meets has the rules for conditions before and after a computation that returns or
-- throws, Kernel/Exec/Holds those with one condition for each of the two.
--
-- How the state corresponds: the state of the runtime is the record `State` with one `JsMap` for
-- each `Map` of `createRuntimeState`; a stored object is a record with the source's fields in the
-- language's spelling, `null` and an absent key are `none`. A step that writes and may throw is an
-- `Exec`: it gives back a result and the state, so what is written before a throw stays written, as
-- in the source.
-- A check that only reads is a `Result`. The name of a case is its function: "task.claimed" is
-- `claim_task`, "connector.delivery.outcome-recorded" is `record_outcome`, and so on; `dispatch` is
-- the `switch`. Payloads are a data type with one constructor for each event type; what
-- `exactKeys`, `assertPlainObject` and `enumValue` refuse is not a value of these types.
--
-- What is a parameter: SHA-256 (node:crypto) of canonical text, as one function for each kind of
-- object that is digested, in the record `Seals` and as arguments `digest` and `digest_of`; so is
-- code that is called and not modelled: the digest of an invocation's command and the normalization
-- of a worker receipt. Identifiers and the clock come in as arguments.
--
-- The database is the record `Sqlite` of the statements and queries that the store runs, and what
-- SQLite documents of them is the record `Transactional`; the clock, the factory of
-- identifiers and the text of an event are the record `Outside`; `Calls` has what else the runtime
-- calls: its digests, lengths in bytes, `localeCompare`, the reading of source evidence, and the
-- verification of a signed invocation. A statement may fail at any time. The calls of the store come
-- from one asynchronous context and one command runs at a time, as `mutate` has it.
--
-- Times: a timestamp is a `Stamp`, a text that is the print of an instant, another text that
-- `Date.parse` reads, or neither; instants are milliseconds from 1970 on. Numbers are natural
-- numbers: `a < b - skew` is written `a + skew < b`. Loops are structural, but for the search of
-- `assertAcyclic`, which has one more than the number of steps as fuel: every visit that enters a
-- step leaves one step fewer to enter.
--
-- Not modelled: files, the schema and the pragmas of the database and its lock; of the runtime,
-- `startWorkflow`, the views of tasks and runs, the audit trail and the evidence bundle; signed
-- envelopes and Ed25519, personality profiles, the registry of workflows and the rest of a workflow
-- definition's checks, the lease, worker packages and attestations, child processes and the command
-- line: input and output, or code that the modelled parts do not call.
mod Prelude
pub mod Kernel
pub mod Domain
pub mod Model
pub mod Identity
pub mod Reducer
pub mod Runtime
mod Tests
