-- ===== src/Model.antt =====
-- The records and states that the runtime keeps: the objects that runtime/fdos-runtime.js builds,
-- domain/delivery-intent.js and identity/invocation.js describe, and runtime/state.js stores.
-- A timestamp is a `Stamp`, `null` is `none`, and a field with a fixed set of texts is a data type.
mod Work
mod Outbox
use fdos_genesis.Prelude.{ℕ, Bool, String, Option, List, []}
use fdos_genesis.Kernel.Validation.{Stamp}
use fdos_genesis.Kernel.Json.{Json, Fields}
use fdos_genesis.Kernel.JsMap.{JsMap}
use fdos_genesis.Kernel.EventLog.{ActorType}
use fdos_genesis.Domain.Catalog.{Risk, Sensitivity}
use fdos_genesis.Domain.Intent.{ActionIntent}
pub use fdos_genesis.Model.Work.{
  TaskStatus, WaitingReason, TaskFailure, Task, UnsignedDefinition, Definition, RunStatus, Run,
  ApprovalStatus, Approval, granted,
}
pub use fdos_genesis.Model.Outbox.{
  ConnectorBinding, OperationBinding, TaskBinding, UnsignedDelivery, DeliveryIntent, Claim,
  OutcomeType, Evidence, Outcome, WorkerReceipt, Decision, Resolution, DeliveryStatus, Delivery,
  prepared, claimed, simulated, uncertain, simulated_evidence, failed_evidence, uncertain_evidence,
}

pub data MemoryStatus : Type 0 where
  candidate accepted rejected : MemoryStatus

pub record Memory : Type 0 where
  pub id : String
  pub scope : String
  pub title : String
  pub content : String
  pub content_digest : String
  pub sensitivity : Sensitivity
  pub source_references : List String
  pub source_evidence : List Json
  pub proposed_by : String
  pub proposed_at : Stamp
  pub status : MemoryStatus
  pub reviewed_by : Option String
  pub reviewed_at : Option Stamp
  pub review_reason : Option String

-- A verified invocation receipt without its digest.
pub record UnsignedReceipt : Type 0 where
  pub schema_version : String
  pub kind : String
  pub key_id : String
  pub issuer_id : String
  pub audience : String
  pub organization_id : String
  pub invocation_id : String
  pub correlation_id : String
  pub principal_type : ActorType
  pub principal_id : String
  pub operation : String
  pub command_digest : String
  pub envelope_digest : String
  pub issued_at : Stamp
  pub not_before : Stamp
  pub expires_at : Stamp
  pub verified_at : Stamp
  pub verification_clock_skew_ms : ℕ
  pub authentication_method : String
  pub authentication_assurance : String

pub record Receipt : Type 0 where
  pub unsigned : UnsignedReceipt
  pub open unsigned use *
  pub receipt_digest : String

pub record AcceptedInvocation : Type 0 where
  pub receipt : Receipt
  pub open receipt use *
  pub accepted_at : Stamp
  pub transaction_id : Option String

-- `createRuntimeState`
pub record State : Type 0 where
  pub runs : JsMap Run
  pub tasks : JsMap Task
  pub approvals : JsMap Approval
  pub memory_candidates : JsMap Memory
  pub outbox : JsMap Delivery
  pub accepted_invocations : JsMap AcceptedInvocation

abbrev pub empty_state : State
empty_state = record {
  runs = [];
  tasks = [];
  approvals = [];
  memory_candidates = [];
  outbox = [];
  accepted_invocations = [];
}
