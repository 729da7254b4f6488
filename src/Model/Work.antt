-- ===== src/Model/Work.antt =====
-- Workflow runs, their tasks, and the approvals of tasks.
use fdos_genesis.Prelude.{ℕ, Bool, String, Option, List}
use fdos_genesis.Kernel.Validation.{Stamp}
use fdos_genesis.Kernel.Json.{Json, Fields}
use fdos_genesis.Domain.Catalog.{Risk}
use fdos_genesis.Domain.Intent.{ActionIntent}

pub data TaskStatus : Type 0 where
  blocked ready in_progress waiting_handoff waiting_approval completed failed cancelled : TaskStatus

pub data WaitingReason : Type 0 where
  workflow_dependencies human_approval_required approval_denied : WaitingReason

pub record TaskFailure : Type 0 where
  pub reason : String
  pub retryable : Bool
  pub failed_at : Stamp

pub record Task : Type 0 where
  pub id : String
  pub run_id : String
  pub step_id : String
  pub title : String
  pub instructions : String
  pub desired_outcome : String
  pub owner_role_id : String
  pub created_by : String
  pub dependencies : List String
  pub parent_task_id : Option String
  pub root_task_id : String
  pub child_task_ids : List String
  pub handoff_depth : ℕ
  pub handoff_context : Option String
  pub status : TaskStatus
  pub waiting_reason : Option WaitingReason
  pub action_intent : ActionIntent
  pub required_fields : List String
  pub attempt : ℕ
  pub max_attempts : ℕ
  pub claimed_by : Option String
  pub claimed_at : Option Stamp
  pub result : Option Fields
  pub result_digest : Option String
  pub failure : Option TaskFailure
  pub created_at : Stamp
  pub updated_at : Stamp
  pub completed_at : Option Stamp

-- A workflow definition without its digest; the texts and steps that the state never reads are
-- kept as JSON.
pub record UnsignedDefinition : Type 0 where
  pub id : String
  pub version : String
  pub owner_role_id : String
  pub max_handoff_depth : ℕ
  pub max_handoffs_per_run : ℕ
  pub rest : Json

pub record Definition : Type 0 where
  pub unsigned : UnsignedDefinition
  pub open unsigned use *
  pub digest : String

pub data RunStatus : Type 0 where
  active completed failed cancelled : RunStatus

pub record Run : Type 0 where
  pub id : String
  pub workflow_definition_id : String
  pub workflow_definition_version : String
  pub workflow_definition_digest : String
  pub definition_snapshot : Definition
  pub objective : String
  pub input : Json
  pub input_digest : String
  pub request_digest : String
  pub idempotency_digest : Option String
  pub requested_by : String
  pub owner_role_id : String
  pub status : RunStatus
  pub task_ids : List String
  pub handoff_count : ℕ
  pub evidence_digest : Option String
  pub evidence_base_head_hash : Option String
  pub created_at : Stamp
  pub updated_at : Stamp
  pub completed_at : Option Stamp

pub data ApprovalStatus : Type 0 where
  requested granted denied expired consumed : ApprovalStatus

pub record Approval : Type 0 where
  pub id : String
  pub task_id : String
  pub task_attempt : ℕ
  pub intent_digest : String
  pub risk_class : Risk
  pub reason : String
  pub requested_by : String
  pub requested_at : Stamp
  pub expires_at : Stamp
  pub status : ApprovalStatus
  pub decided_by : Option String
  pub decided_at : Option Stamp
  pub decision_reason : Option String
  pub consumed_at : Option Stamp
  pub expired_at : Option Stamp
