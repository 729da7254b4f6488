-- ===== src/Tests.antt =====
-- Runs of the model on small inputs.
mod Samples
mod Outbox
mod Invocations
mod Workflows
mod Log
mod Policies
mod Tables
mod Store
mod Connectors
mod Runtime
mod Office
mod Commands
mod Delegations
mod Leases
mod Retries
