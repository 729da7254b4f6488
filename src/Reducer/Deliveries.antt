-- ===== src/Reducer/Deliveries.antt =====
-- runtime/state.js: what each `connector.delivery.*` event makes of the delivery that it names. The
-- delivery is read before and written after all checks, so each is a function to a new delivery or
-- an error.
pub mod Valid
pub mod Moves
pub mod Authority
use fdos_genesis.Prelude.{
  ℕ, suc, ◌+◌, Bool, true, false, not, ◌&&◌, ◌||◌, String, Option, none, some, ltb, leb, ◌==◌, ◌is◌,
  same_option, is_some, if◌then◌else◌,
}
use fdos_genesis.Kernel.Result.{
  Result, ok, err, validation, integrity, type_error, guard, or_throw, ◌>>=◌, ◌>>◌,
}
use fdos_genesis.Kernel.Text.{starts_with}
use fdos_genesis.Kernel.Validation.{
  required_string, anything, assert_id, Stamp, iso_date, same_stamp, date_parse,
}
use fdos_genesis.Kernel.JsMap.{JsMap}
use fdos_genesis.Kernel.JsMap
use fdos_genesis.Kernel.EventLog.{Actor, ActorType, human, agent, connector, system}
use fdos_genesis.Domain.Delivery.{
  normalized_digest, verify_delivery_intent, verify_delivery_outcome,
}
use fdos_genesis.Model.{
  Task, Delivery, DeliveryStatus, Claim, Outcome, OutcomeType, Evidence, simulated_evidence,
  failed_evidence, uncertain_evidence, WorkerReceipt, Resolution, Decision, AcceptedInvocation,
}
use fdos_genesis.Reducer.Seals.{Seals, OutcomeCommand}
use fdos_genesis.Reducer.Checks.{
  same_status, is_human, is_connector, is_system, parsed_after, verify_claim, is_failed,
  verify_resolution, is_simulated, is_uncertain, evidence_retryable, evidence_result,
  assert_worker_receipt_binding,
}

-- `connector.delivery.claimed`
unfoldable pub claim_delivery : (subject : String) → Actor → Claim → Delivery → Result Delivery
claim_delivery subject actor claim delivery = do
  guard
      (subject is delivery.id
        && same_status delivery.status DeliveryStatus.prepared
        && is_connector actor.type)
      integrity
  verify_claim claim delivery actor
  ok (record delivery {
    status = DeliveryStatus.claimed;
    attempt = claim.attempt;
    claim = some claim;
    retryable = false;
    resolution = none;
    updated_at = claim.claimed_at;
  })

abbrev pub outcome_status : OutcomeType → DeliveryStatus
outcome_status OutcomeType.failed = DeliveryStatus.failed
outcome_status OutcomeType.simulated = DeliveryStatus.simulated
outcome_status OutcomeType.uncertain = DeliveryStatus.uncertain

abbrev is_failure : OutcomeType → Bool
is_failure OutcomeType.failed = true
is_failure _ = false

abbrev pub bind_receipt :
    Seals → Option WorkerReceipt → Delivery → Claim → Outcome → Result (Option WorkerReceipt)
bind_receipt seals none delivery claim outcome = ok none
bind_receipt seals (some value) delivery claim outcome = do
  receipt ← assert_worker_receipt_binding seals value delivery claim outcome
  ok (some receipt)

abbrev pub outcome_operation : Option WorkerReceipt → String
outcome_operation none = "outbox.record-outcome"
outcome_operation (some r) = "outbox.record-worker-outcome"

-- `connector.delivery.outcome-recorded`, with the invocation that the event is attributed to.
unfoldable pub record_outcome :
    Seals
    → (subject : String) → Actor
    → Option AcceptedInvocation
    → (claim_id : String) → Outcome
    → Option WorkerReceipt
    → Delivery
    → Result Delivery
record_outcome seals subject actor invocation claim_id raw worker_receipt delivery = do
  guard
      (subject is delivery.id
        && same_status delivery.status DeliveryStatus.claimed
        && is_connector actor.type)
      integrity
  claim ← or_throw delivery.claim type_error
  guard (claim_id is claim.id) integrity
  accepted ← or_throw invocation integrity
  guard (accepted.operation is outcome_operation worker_receipt) integrity
  outcome ← verify_delivery_outcome raw
  command_digest ← seals.command_digest (record {
    delivery_id = delivery.id;
    claim_id = claim_id;
    outcome = outcome.type;
    evidence = outcome.evidence;
    worker_receipt = worker_receipt;
  })
  guard
      (outcome.recorded_by is actor.id
        && actor.id is claim.connector_id
        && command_digest is accepted.command_digest
        && not (parsed_after (date_parse outcome.recorded_at) (date_parse claim.expires_at)))
      integrity
  receipt ← bind_receipt seals worker_receipt delivery claim outcome
  ok (record delivery {
    status = outcome_status outcome.type;
    last_outcome = some outcome;
    worker_receipt = receipt;
    worker_receipt_invocation_id = if is_some receipt then actor.invocation_id else none;
    claim = none;
    retryable = is_failure outcome.type && evidence_retryable outcome.evidence;
    updated_at = outcome.recorded_at;
    completed_at = if is_simulated outcome.type then some outcome.recorded_at else none;
  })

abbrev is_detector : Actor → Claim → Bool
is_detector actor claim =
    (is_connector actor.type && actor.id is claim.connector_id)
    || (is_system actor.type && actor.id is "fdos-runtime")

-- `connector.delivery.claim-expired`
unfoldable pub expire_claim :
    (subject : String)
    → Actor
    → (claim_id : String) → (detected_at expired_at : Stamp) → Outcome
    → Delivery
    → Result Delivery
expire_claim subject actor claim_id detected_at expired_at raw delivery = do
  guard (subject is delivery.id && same_status delivery.status DeliveryStatus.claimed) integrity
  claim ← or_throw delivery.claim type_error
  guard (claim_id is claim.id && same_stamp expired_at claim.expires_at) integrity
  iso_date detected_at
  guard (not (parsed_after (date_parse expired_at) (date_parse detected_at))) integrity
  outcome ← verify_delivery_outcome raw
  guard
      (is_detector actor claim
        && is_uncertain outcome.type
        && outcome.recorded_by is claim.connector_id
        && same_stamp outcome.recorded_at detected_at)
      integrity
  ok (record delivery {
    status = DeliveryStatus.uncertain;
    last_outcome = some outcome;
    worker_receipt = none;
    worker_receipt_invocation_id = none;
    claim = none;
    retryable = false;
    updated_at = detected_at;
  })

-- `connector.delivery.retry-authorized`
unfoldable pub authorize_retry :
    (subject : String)
    → Actor
    → (authorized_by reason : String) → (authorized_at : Stamp) → Delivery
    → Result Delivery
authorize_retry subject actor authorized_by reason authorized_at delivery = do
  guard
      (subject is delivery.id
        && same_status delivery.status DeliveryStatus.failed
        && delivery.retryable
        && ltb delivery.attempt delivery.max_attempts
        && is_human actor.type
        && authorized_by is actor.id)
      integrity
  required_string 1 2000 anything reason
  iso_date authorized_at
  ok (record delivery {
    status = DeliveryStatus.prepared;
    retryable = false;
    updated_at = authorized_at;
  })

-- `connector.delivery.cancelled`
unfoldable pub cancel_delivery :
    (subject : String)
    → Actor
    → (cancelled_by reason : String) → (cancelled_at : Stamp) → Delivery
    → Result Delivery
cancel_delivery subject actor cancelled_by reason cancelled_at delivery = do
  guard
      (subject is delivery.id
        && (same_status delivery.status DeliveryStatus.prepared
            || same_status delivery.status DeliveryStatus.failed)
        && is_human actor.type
        && cancelled_by is actor.id)
      integrity
  required_string 1 2000 anything reason
  iso_date cancelled_at
  ok (record delivery {
    status = DeliveryStatus.cancelled;
    claim = none;
    retryable = false;
    updated_at = cancelled_at;
    completed_at = some cancelled_at;
  })

abbrev pub decision_status : Decision → DeliveryStatus
decision_status Decision.cancelled = DeliveryStatus.cancelled
decision_status Decision.confirmed_simulated = DeliveryStatus.simulated
decision_status Decision.failed = DeliveryStatus.failed

-- `connector.delivery.uncertainty-resolved`
unfoldable pub resolve_uncertainty :
    (subject : String) → Actor → Resolution → Delivery → Result Delivery
resolve_uncertainty subject actor resolution delivery = do
  guard (subject is delivery.id && same_status delivery.status DeliveryStatus.uncertain) integrity
  verify_resolution resolution actor
  ok (record delivery {
    resolution = some resolution;
    status = decision_status resolution.decision;
    retryable = is_failed resolution.decision && resolution.retryable;
    updated_at = resolution.resolved_at;
    completed_at = if is_failed resolution.decision then none else some resolution.resolved_at;
  })
