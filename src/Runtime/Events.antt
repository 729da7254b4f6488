-- ===== src/Runtime/Events.antt =====
-- The type of each event, as the commands of runtime/fdos-runtime.js append it and the `switch` of
-- runtime/state.js reads it.
use fdos_genesis.Prelude.{String}
use fdos_genesis.Reducer.Payload.{Payload}

unfoldable pub event_type : Payload → String
event_type (Payload.invocation_accepted receipt at) = "identity.invocation.accepted"
event_type (Payload.invocation_failed failure) = "identity.invocation.execution-failed"
event_type (Payload.run_started run tasks) = "workflow.run.started"
event_type (Payload.task_ready id at) = "task.ready"
event_type (Payload.task_claimed id by at) = "task.claimed"
event_type (Payload.task_completed id result digest at) = "task.completed"
event_type (Payload.task_failed id reason retryable at) = "task.failed"
event_type (Payload.task_retry_authorized id attempt at) = "task.retry.authorized"
event_type (Payload.task_cancelled id at) = "task.cancelled"
event_type (Payload.handoff_created parent child at) = "task.handoff.created"
event_type (Payload.handoff_returned parent at) = "task.handoff.returned"
event_type (Payload.approval_requested approval) = "approval.requested"
event_type (Payload.approval_granted id by at expires) = "approval.granted"
event_type (Payload.approval_denied id by at reason) = "approval.denied"
event_type (Payload.approval_expired id at) = "approval.expired"
event_type (Payload.approval_consumed id at) = "approval.consumed"
event_type (Payload.delivery_prepared delivery) = "connector.delivery.prepared"
event_type (Payload.delivery_claimed claim id) = "connector.delivery.claimed"
event_type (Payload.delivery_outcome claim_id id outcome receipt) =
    "connector.delivery.outcome-recorded"
event_type (Payload.delivery_claim_expired claim_id id detected expired outcome) =
    "connector.delivery.claim-expired"
event_type (Payload.delivery_retry at by id reason) = "connector.delivery.retry-authorized"
event_type (Payload.delivery_cancelled at by id reason) = "connector.delivery.cancelled"
event_type (Payload.delivery_resolved id resolution) = "connector.delivery.uncertainty-resolved"
event_type (Payload.memory_proposed m) = "memory.candidate.proposed"
event_type (Payload.memory_reviewed id decision by at reason) = "memory.candidate.reviewed"
event_type (Payload.run_completed id digest head at) = "workflow.run.completed"
event_type (Payload.unknown type) = type
