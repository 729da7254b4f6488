-- ===== src/Reducer/Payload.antt =====
-- The payloads of the runtime's events: a constructor for each `event.type` of `applyRuntimeEvent`,
-- with the fields that it reads. `exactKeys` holds by the types.
use fdos_genesis.Prelude.{ℕ, Bool, String, Option, List}
use fdos_genesis.Kernel.Validation.{Stamp}
use fdos_genesis.Kernel.Json.{Fields}
use fdos_genesis.Kernel.EventLog.{Event}
use fdos_genesis.Model.{
  Receipt, Run, Task, Approval, Memory, MemoryStatus, Delivery, Claim, Outcome, WorkerReceipt,
  Resolution,
}

-- `identity.invocation.execution-failed`
pub record InvocationFailure : Type 0 where
  pub invocation_id : String
  pub operation : String
  pub command_digest : String
  pub error_code : String
  pub error_type : String
  pub message_digest : String
  pub failed_at : Stamp

pub data Payload : Type 0 where
  invocation_accepted : (receipt : Receipt) (accepted_at : Stamp) → Payload
  invocation_failed : InvocationFailure → Payload
  run_started : (run : Run) (tasks : List Task) → Payload
  task_ready : (task_id : String) (ready_at : Stamp) → Payload
  task_claimed : (task_id claimed_by : String) (claimed_at : Stamp) → Payload
  task_completed :
      (task_id : String) (result : Fields) (result_digest : String) (completed_at : Stamp) → Payload
  task_failed : (task_id reason : String) (retryable : Bool) (failed_at : Stamp) → Payload
  task_retry_authorized : (task_id : String) (attempt : ℕ) (authorized_at : Stamp) → Payload
  task_cancelled : (task_id : String) (cancelled_at : Stamp) → Payload
  handoff_created : (parent_task_id : String) (child_task : Task) (created_at : Stamp) → Payload
  handoff_returned : (parent_task_id : String) (returned_at : Stamp) → Payload
  approval_requested : Approval → Payload
  approval_granted : (approval_id decided_by : String) (decided_at expires_at : Stamp) → Payload
  approval_denied :
      (approval_id decided_by : String) (decided_at : Stamp) (reason : String) → Payload
  approval_expired : (approval_id : String) (expired_at : Stamp) → Payload
  approval_consumed : (approval_id : String) (consumed_at : Stamp) → Payload
  delivery_prepared : Delivery → Payload
  delivery_claimed : (claim : Claim) (delivery_id : String) → Payload
  delivery_outcome :
      (claim_id delivery_id : String) (outcome : Outcome) (worker_receipt : Option WorkerReceipt)
      → Payload
  delivery_claim_expired :
      (claim_id delivery_id : String) (detected_at expired_at : Stamp) (outcome : Outcome) → Payload
  delivery_retry : (authorized_at : Stamp) (authorized_by delivery_id reason : String) → Payload
  delivery_cancelled : (cancelled_at : Stamp) (cancelled_by delivery_id reason : String) → Payload
  delivery_resolved : (delivery_id : String) (resolution : Resolution) → Payload
  memory_proposed : Memory → Payload
  memory_reviewed :
      (candidate_id : String) (decision : MemoryStatus) (reviewed_by : String) (reviewed_at : Stamp)
      (reason : String)
      → Payload
  run_completed :
      (run_id evidence_digest : String) (evidence_base_head_hash : Option String)
      (completed_at : Stamp)
      → Payload
  unknown : (type : String) → Payload

abbrev pub RuntimeEvent : Type 0
RuntimeEvent = Event Payload
