-- ===== src/Reducer/Seals.antt =====
-- What the reducer calls and this library does not define: SHA-256 of the canonical text of an
-- object (node:crypto), and the two functions of the source that wait for a model of their own,
-- the normalization of a worker receipt and the digest of an outcome command.
use fdos_genesis.Prelude.{String, Option}
use fdos_genesis.Kernel.Result.{Result}
use fdos_genesis.Domain.Delivery.{Digests}
use fdos_genesis.Model.{UnsignedReceipt, UnsignedDefinition, WorkerReceipt, OutcomeType, Evidence}

-- The command `outbox.record-outcome`, or with a receipt `outbox.record-worker-outcome`.
pub record OutcomeCommand : Type 0 where
  pub delivery_id : String
  pub claim_id : String
  pub outcome : OutcomeType
  pub evidence : Evidence
  pub worker_receipt : Option WorkerReceipt

pub record Seals : Type 0 where
  pub receipt_digest : UnsignedReceipt → String
  pub definition_digest : UnsignedDefinition → String
  pub deliveries : Digests
  pub command_digest : OutcomeCommand → Result String
  pub normalize_worker_receipt : WorkerReceipt → Result WorkerReceipt
