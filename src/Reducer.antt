-- ===== src/Reducer.antt =====
-- runtime/state.js: the reducer that replays the event log into the runtime's state.
pub mod Seals
pub mod Payload
pub mod Checks
pub mod Deliveries
pub mod Store
pub mod Workflow
pub mod Approvals
pub mod Outbox
pub mod Invocations
pub mod Apply
