-- ===== src/Model/Outbox.antt =====
-- Connector deliveries: the intent, the claim, the outcome and the resolution of an uncertain one.
use fdos_genesis.Prelude.{ℕ, Bool, String, Option}
use fdos_genesis.Kernel.Validation.{Stamp}
use fdos_genesis.Kernel.Json.{Json, Fields}
use fdos_genesis.Domain.Catalog.{Risk, Sensitivity}

-- The bindings of a delivery intent.
pub record ConnectorBinding : Type 0 where
  pub id : String
  pub contract_id : String
  pub contract_version : String
  pub contract_digest : String
  pub execution_mode : String
  pub network_access : Bool
  pub external_effects : Bool
  pub max_attempts : ℕ

pub record OperationBinding : Type 0 where
  pub id : String
  pub digest : String
  pub action_type : String
  pub capability : String
  pub risk_class : Risk
  pub sensitivity : Sensitivity
  pub target_prefix : String

pub record TaskBinding : Type 0 where
  pub id : String
  pub run_id : String
  pub attempt : ℕ
  pub action_intent_digest : String
  pub owner_role_id : String

pub record UnsignedDelivery : Type 0 where
  pub schema_version : String
  pub kind : String
  pub connector : ConnectorBinding
  pub operation : OperationBinding
  pub task : TaskBinding
  pub target : String
  pub parameters : Fields
  pub parameters_digest : String
  pub requested_by : String
  pub requested_at : Stamp
  pub idempotency_digest : String
  pub request_digest : String

pub record DeliveryIntent : Type 0 where
  pub unsigned : UnsignedDelivery
  pub open unsigned use *
  pub digest : String

pub record Claim : Type 0 where
  pub id : String
  pub connector_id : String
  pub attempt : ℕ
  pub claimed_at : Stamp
  pub expires_at : Stamp

pub data OutcomeType : Type 0 where
  failed simulated uncertain : OutcomeType

pub data Evidence : Type 0 where
  simulated_evidence : (external_effect result_digest : String) → Evidence
  failed_evidence :
      (external_effect error_code message_digest : String) (retryable : Bool) → Evidence
  uncertain_evidence : (external_effect reason_code evidence_digest : String) → Evidence

pub record Outcome : Type 0 where
  pub type : OutcomeType
  pub evidence : Evidence
  pub recorded_by : String
  pub recorded_at : Stamp

-- What the receipt of a verified worker binds; the rest of it is kept as JSON.
pub record WorkerReceipt : Type 0 where
  pub delivery_id : String
  pub claim_id : String
  pub claim_attempt : ℕ
  pub connector_id : String
  pub delivery_intent_digest : String
  pub issued_at : Stamp
  pub expires_at : Stamp
  pub result_digest : String
  pub completed_at : Stamp
  pub rest : Json

pub data Decision : Type 0 where
  cancelled confirmed_simulated failed : Decision

pub record Resolution : Type 0 where
  pub decision : Decision
  pub reason : String
  pub evidence_digest : String
  pub result_digest : Option String
  pub retryable : Bool
  pub resolved_by : String
  pub resolved_at : Stamp

pub data DeliveryStatus : Type 0 where
  prepared claimed simulated failed uncertain cancelled : DeliveryStatus

pub record Delivery : Type 0 where
  pub id : String
  pub status : DeliveryStatus
  pub intent : DeliveryIntent
  pub attempt : ℕ
  pub max_attempts : ℕ
  pub claim : Option Claim
  pub last_outcome : Option Outcome
  pub worker_receipt : Option WorkerReceipt
  pub worker_receipt_invocation_id : Option String
  pub resolution : Option Resolution
  pub retryable : Bool
  pub created_at : Stamp
  pub updated_at : Stamp
  pub completed_at : Option Stamp
