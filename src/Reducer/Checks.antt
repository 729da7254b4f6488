-- ===== src/Reducer/Checks.antt =====
-- runtime/state.js: the checks `verifyPreparedDelivery`, `verifyClaim` and `verifyResolution`, and
-- `assertVerifiedWorkerReceiptBinding` of domain/verified-worker-receipt.js.
use fdos_genesis.Prelude.{
  ℕ, ◌+◌, Bool, true, false, not, ◌&&◌, ◌||◌, String, Option, none, some, ltb, leb, ◌==◌, ◌is◌,
  same_option, is_some, if◌then◌else◌,
}
use fdos_genesis.Kernel.Result.{
  Result, ok, err, validation, integrity, guard, or_throw, ◌>>=◌, ◌>>◌,
}
use fdos_genesis.Kernel.Text.{starts_with}
use fdos_genesis.Kernel.Validation.{
  required_string, anything, assert_id, iso_date, same_stamp, date_parse,
}
use fdos_genesis.Kernel.JsMap.{JsMap}
use fdos_genesis.Kernel.JsMap
use fdos_genesis.Kernel.EventLog.{Actor, ActorType, human, connector, system}
use fdos_genesis.Domain.Delivery.{normalized_digest, verify_delivery_intent}
use fdos_genesis.Model.{
  Task, Delivery, DeliveryStatus, Claim, Outcome, OutcomeType, Evidence, simulated_evidence,
  failed_evidence, WorkerReceipt, Resolution, Decision,
}
use fdos_genesis.Reducer.Seals.{Seals}

abbrev pub same_status : DeliveryStatus → DeliveryStatus → Bool
same_status DeliveryStatus.prepared DeliveryStatus.prepared = true
same_status DeliveryStatus.claimed DeliveryStatus.claimed = true
same_status DeliveryStatus.simulated DeliveryStatus.simulated = true
same_status DeliveryStatus.failed DeliveryStatus.failed = true
same_status DeliveryStatus.uncertain DeliveryStatus.uncertain = true
same_status DeliveryStatus.cancelled DeliveryStatus.cancelled = true
same_status _ _ = false

abbrev pub is_human : ActorType → Bool
is_human human = true
is_human _ = false

abbrev pub is_connector : ActorType → Bool
is_connector connector = true
is_connector _ = false

abbrev pub is_system : ActorType → Bool
is_system system = true
is_system _ = false

-- `Date.parse(a) > Date.parse(b)`, which no `NaN` passes.
abbrev pub parsed_after : Option ℕ → Option ℕ → Bool
parsed_after (some a) (some b) = ltb b a
parsed_after none b = false
parsed_after (some a) none = false

-- `Date.parse(a) - Date.parse(b) > n`
abbrev pub parsed_beyond : Option ℕ → Option ℕ → ℕ → Bool
parsed_beyond (some a) (some b) n = ltb (b + n) a
parsed_beyond none b n = false
parsed_beyond (some a) none n = false

-- A prepared delivery that carries nothing of a later state.
abbrev pub is_fresh : Delivery → Bool
is_fresh d =
    same_status d.status DeliveryStatus.prepared
    && d.attempt == 0
    && d.max_attempts == d.intent.connector.max_attempts
    && not (is_some d.claim)
    && not (is_some d.last_outcome)
    && not (is_some d.worker_receipt)
    && not (is_some d.worker_receipt_invocation_id)
    && not (is_some d.resolution)
    && not d.retryable
    && not (is_some d.completed_at)

unfoldable pub verify_prepared_delivery :
    Seals → JsMap Task → (subject : String) → Actor → Delivery → Result (Unit {0})
verify_prepared_delivery seals tasks subject actor delivery = do
  id ← assert_id delivery.id
  guard (starts_with id "delivery_" && subject is id) integrity
  verify_delivery_intent seals.deliveries delivery.intent
  guard
      (is_fresh delivery
        && same_stamp delivery.created_at delivery.intent.requested_at
        && same_stamp delivery.updated_at delivery.created_at
        && delivery.intent.requested_by is actor.id)
      integrity
  iso_date delivery.created_at
  task ← or_throw (JsMap.get delivery.intent.task.id tasks) integrity
  guard
      (task.run_id is delivery.intent.task.run_id
        && task.attempt == delivery.intent.task.attempt
        && task.action_intent.digest is delivery.intent.task.action_intent_digest
        && task.owner_role_id is delivery.intent.task.owner_role_id)
      integrity

unfoldable pub verify_claim : Claim → Delivery → Actor → Result (Unit {0})
verify_claim claim delivery actor = do
  id ← assert_id claim.id
  claimed_at ← iso_date claim.claimed_at
  expires_at ← iso_date claim.expires_at
  guard
      (starts_with id "claim_"
        && claim.connector_id is delivery.intent.connector.id
        && claim.connector_id is actor.id
        && claim.attempt == delivery.attempt + 1
        && leb claim.attempt delivery.max_attempts
        && ltb claimed_at expires_at)
      integrity

abbrev is_confirmed : Decision → Bool
is_confirmed Decision.confirmed_simulated = true
is_confirmed _ = false

abbrev pub is_failed : Decision → Bool
is_failed Decision.failed = true
is_failed _ = false

abbrev require_digest : Option String → Result String
require_digest none = err validation
require_digest (some d) = normalized_digest d

-- The result digest is required of a confirmed simulation, which is not retryable, and of no other
-- decision.
abbrev verify_result_digest : Resolution → Result (Unit {0})
verify_result_digest r =
    if is_confirmed r.decision
    then (require_digest r.result_digest >> guard (not r.retryable) integrity)
    else guard (not (is_some r.result_digest)) integrity

unfoldable pub verify_resolution : Resolution → Actor → Result (Unit {0})
verify_resolution resolution actor = do
  guard (resolution.resolved_by is actor.id && is_human actor.type) integrity
  required_string 1 2000 anything resolution.reason
  normalized_digest resolution.evidence_digest
  iso_date resolution.resolved_at
  verify_result_digest resolution
  guard (is_failed resolution.decision || not resolution.retryable) integrity

abbrev pub is_simulated : OutcomeType → Bool
is_simulated OutcomeType.simulated = true
is_simulated _ = false

abbrev pub is_uncertain : OutcomeType → Bool
is_uncertain OutcomeType.uncertain = true
is_uncertain _ = false

abbrev pub evidence_retryable : Evidence → Bool
evidence_retryable (failed_evidence effect code digest retryable) = retryable
evidence_retryable _ = false

abbrev pub evidence_result : Evidence → Option String
evidence_result (simulated_evidence effect digest) = some digest
evidence_result _ = none

abbrev pub max_parent_runtime_clock_skew_ms : ℕ
max_parent_runtime_clock_skew_ms = 30000

-- `assertVerifiedWorkerReceiptBinding` of domain/verified-worker-receipt.js
unfoldable pub assert_worker_receipt_binding :
    Seals → WorkerReceipt → Delivery → Claim → Outcome → Result WorkerReceipt
assert_worker_receipt_binding seals value delivery claim outcome = do
  receipt ← seals.normalize_worker_receipt value
  iso_date outcome.recorded_at
  guard
      (is_simulated outcome.type
        && receipt.delivery_id is delivery.id
        && receipt.claim_id is claim.id
        && receipt.claim_attempt == claim.attempt
        && receipt.connector_id is claim.connector_id
        && receipt.connector_id is delivery.intent.connector.id
        && receipt.delivery_intent_digest is delivery.intent.digest
        && same_option (some receipt.result_digest) (evidence_result outcome.evidence)
        && not (parsed_after (date_parse claim.claimed_at) (date_parse receipt.issued_at))
        && not (parsed_after (date_parse receipt.expires_at) (date_parse claim.expires_at))
        && not (
            parsed_beyond (date_parse receipt.completed_at) (date_parse outcome.recorded_at)
              max_parent_runtime_clock_skew_ms))
      integrity
  ok receipt
