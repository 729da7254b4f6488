-- ===== src/Runtime/Keeps/Outbox.antt =====
-- The commands of the outbox.
use fdos_genesis.Prelude.{ℕ, Bool, true, false, String, Option, none, some}
use fdos_genesis.Kernel.Exec.Holds.{Holds}
use fdos_genesis.Kernel.Json.{Fields}
use fdos_genesis.Kernel.EventLog.{Actor}
use fdos_genesis.Model.{Task}
use fdos_genesis.Runtime.{Environment, Live}
use fdos_genesis.Kernel.Validation.{Stamp}
use fdos_genesis.Model.{
  Delivery, DeliveryIntent, Claim, OutcomeType, Evidence, WorkerReceipt, Decision,
}
use fdos_genesis.Runtime.Keeps.{Kept, command_rules}
use fdos_genesis.Runtime.Outbox.{
  create_delivery, reuse_or_create, prepare_delivery, expire_claim, claim_prepared, refuse_claimed,
  claim_delivery,
}
use fdos_genesis.Runtime.Reports.{
  report, record_outcome, record_delivery_outcome, record_verified_worker_outcome,
  reconcile_expired_delivery,
}
use fdos_genesis.Runtime.Review.{retry_delivery, cancel_delivery, resolve_uncertain_delivery}

module _ (env : Environment) {P E : Live env → Type 0} (k : Kept env P E) where
  create_delivery-Holds :
      (actor : Actor) (task : Task) (intent : DeliveryIntent) (at : Stamp)
      → Holds P E (create_delivery env actor task intent at)
  unfolding create_delivery
  create_delivery-Holds actor task intent at = search command_rules depth 30 fits 2000

  reuse_or_create-Holds :
      (actor : Actor) (task : Task) (intent : DeliveryIntent) (at : Stamp) (o : Option Delivery)
      → Holds P E (reuse_or_create env actor task intent at o)
  unfolding reuse_or_create
  reuse_or_create-Holds actor task intent at none = create_delivery-Holds actor task intent at
  reuse_or_create-Holds actor task intent at (some d) = search command_rules

  pub prepare_delivery-Holds :
      (actor : Actor) (task_id connector_id operation_id : String) (parameters : Fields)
      (key : String)
      → Holds P E (prepare_delivery env actor task_id connector_id operation_id parameters key)
  unfolding prepare_delivery
  prepare_delivery-Holds actor task_id connector_id operation_id parameters key =
      search (command_rules, reuse_or_create-Holds) depth 60 fits 3000

  expire_claim-Holds :
      (code : String) (actor : Actor) (d : Delivery) (claim : Claim) (by : String) (at : ℕ)
      → Holds P E (expire_claim env code actor d claim by at)
  unfolding expire_claim
  expire_claim-Holds code actor d claim by at = search command_rules

  claim_prepared-Holds :
      (actor : Actor) (d : Delivery) (lease at : ℕ)
      → Holds P E (claim_prepared env actor d lease at)
  unfolding claim_prepared
  claim_prepared-Holds actor d lease at = search command_rules depth 30 fits 2000

  refuse_claimed-Holds :
      (actor : Actor) (d : Delivery) (at : ℕ) → Holds P E (refuse_claimed env actor d at)
  unfolding refuse_claimed
  refuse_claimed-Holds actor d at = search (command_rules, expire_claim-Holds) depth 30 fits 2000

  pub claim_delivery-Holds :
      (actor : Actor) (id : String) (lease : ℕ) → Holds P E (claim_delivery env actor id lease)
  unfolding claim_delivery
  claim_delivery-Holds actor id lease =
      search (command_rules, refuse_claimed-Holds, claim_prepared-Holds) depth 60 fits 3000

  report-Holds :
      (actor : Actor) (d : Delivery) (claim : Claim) (type : OutcomeType) (evidence : Evidence)
      (required : Bool) (receipt : Option WorkerReceipt) (at : ℕ)
      → Holds P E (report env actor d claim type evidence required receipt at)
  unfolding report
  report-Holds actor d claim type evidence required receipt at =
      search command_rules depth 30 fits 2000

  record_outcome-Holds :
      (operation : String) (required : Bool) (actor : Actor) (id claim_id : String)
      (type : OutcomeType) (evidence : Evidence) (receipt : Option WorkerReceipt)
      → Holds P E (record_outcome env operation required actor id claim_id type evidence receipt)
  unfolding record_outcome
  record_outcome-Holds operation required actor id claim_id type evidence receipt =
      search (command_rules, expire_claim-Holds, report-Holds) depth 60 fits 3000

  pub record_delivery_outcome-Holds :
      (actor : Actor) (id claim_id : String) (type : OutcomeType) (evidence : Evidence)
      (receipt : Option WorkerReceipt)
      → Holds P E (record_delivery_outcome env actor id claim_id type evidence receipt)
  unfolding record_delivery_outcome
  record_delivery_outcome-Holds = record_outcome-Holds "outbox.record-outcome" false

  pub record_verified_worker_outcome-Holds :
      (actor : Actor) (id claim_id : String) (type : OutcomeType) (evidence : Evidence)
      (receipt : Option WorkerReceipt)
      → Holds P E (record_verified_worker_outcome env actor id claim_id type evidence receipt)
  unfolding record_verified_worker_outcome
  record_verified_worker_outcome-Holds = record_outcome-Holds "outbox.record-worker-outcome" true

  pub reconcile_expired_delivery-Holds :
      (actor : Actor) (id : String) → Holds P E (reconcile_expired_delivery env actor id)
  unfolding reconcile_expired_delivery
  reconcile_expired_delivery-Holds actor id =
      search (command_rules, expire_claim-Holds) depth 60 fits 3000

  pub retry_delivery-Holds :
      (actor : Actor) (id reason : String) → Holds P E (retry_delivery env actor id reason)
  unfolding retry_delivery
  retry_delivery-Holds actor id reason = search command_rules depth 60 fits 3000

  pub cancel_delivery-Holds :
      (actor : Actor) (id reason : String) → Holds P E (cancel_delivery env actor id reason)
  unfolding cancel_delivery
  cancel_delivery-Holds actor id reason = search command_rules depth 60 fits 3000

  pub resolve_uncertain_delivery-Holds :
      (actor : Actor) (id : String) (decision : Decision) (reason evidence : String)
      (result : Option String) (retryable : Option Bool)
      → Holds P E
          (resolve_uncertain_delivery env actor id decision reason evidence result retryable)
  unfolding resolve_uncertain_delivery
  resolve_uncertain_delivery-Holds actor id decision reason evidence result retryable =
      search command_rules depth 60 fits 3000
