-- ===== src/Reducer/Deliveries/Valid.antt =====
-- What holds of every delivery in the outbox, and that each event of a delivery keeps it.
use fdos_genesis.Prelude.{
  ◌+◌, ◌≤◌, ◌<◌, ◌≡◌, ◌≢◌, ◌⊎◌, true, String, Option, none, some, arith, eq_iff, is_some,
}
use fdos_genesis.Kernel.Result.{ok}
use fdos_genesis.Kernel.Validation.{Stamp}
use fdos_genesis.Kernel.EventLog.{Actor}
use fdos_genesis.Model.{
  Delivery, DeliveryStatus, prepared, claimed, simulated, Claim, Outcome, WorkerReceipt, Resolution,
  AcceptedInvocation,
}
use fdos_genesis.Reducer.Seals.{Seals}
use fdos_genesis.Reducer.Checks.{verify_claim, is_fresh}
use fdos_genesis.Reducer.Deliveries.{
  claim_delivery, record_outcome, expire_claim, authorize_retry, cancel_delivery,
  resolve_uncertainty,
}

-- The claim of a claimed delivery.
abbrev pub Holds : Delivery → Option Claim → Type 0
Holds d none = ⊥
Holds d (some c) = (c.attempt ≡ d.attempt) × (c.connector_id ≡ d.intent.connector.id)

pub record IsValid (d : Delivery) : Type 0 where
  pub within_budget : d.attempt ≤ d.max_attempts
  pub claim_held : d.status ≡ claimed → Holds d d.claim
  pub claim_free : d.status ≢ claimed → d.claim ≡ none
  pub retryable_failed : d.retryable ≡ true → d.status ≡ DeliveryStatus.failed
  pub open_unfinished :
      d.status ≢ simulated → d.status ≢ DeliveryStatus.cancelled → d.completed_at ≡ none
  pub done_finished :
      (d.status ≡ simulated) ⊎ (d.status ≡ DeliveryStatus.cancelled) → is_some d.completed_at ≡ true
  pub tried : d.status ≢ prepared → d.status ≢ DeliveryStatus.cancelled → 0 < d.attempt

pub verify_claim-bounds :
    (claim : Claim) (d : Delivery) (actor : Actor)
    → verify_claim claim d actor ≡ ok tt
    → (claim.attempt ≡ d.attempt + 1)
      × (claim.attempt ≤ d.max_attempts)
      × (claim.connector_id ≡ d.intent.connector.id)
      × (claim.connector_id ≡ actor.id)
unfolding verify_claim
verify_claim-bounds claim d actor v =
    ground
      (arith, eq_iff claim.connector_id d.intent.connector.id, eq_iff claim.connector_id actor.id)

pub claim_delivery-IsValid :
    (subject : String) (actor : Actor) (claim : Claim) (d : Delivery) {d' : Delivery}
    → claim_delivery subject actor claim d ≡ ok d'
    → IsValid d
    → IsValid d'
unfolding claim_delivery
claim_delivery-IsValid subject actor claim d {d'} e v =
    ground (arith, verify_claim-bounds claim d actor)

pub record_outcome-IsValid :
    (seals : Seals) (subject : String) (actor : Actor) (invocation : Option AcceptedInvocation)
    (claim_id : String) (raw : Outcome) (receipt : Option WorkerReceipt) (d : Delivery)
    {d' : Delivery}
    → record_outcome seals subject actor invocation claim_id raw receipt d ≡ ok d'
    → IsValid d
    → IsValid d'
unfolding record_outcome
record_outcome-IsValid seals subject actor invocation claim_id raw receipt d {d'} e v = ground arith

pub expire_claim-IsValid :
    (subject : String) (actor : Actor) (claim_id : String) (detected expired : Stamp)
    (raw : Outcome) (d : Delivery) {d' : Delivery}
    → expire_claim subject actor claim_id detected expired raw d ≡ ok d'
    → IsValid d
    → IsValid d'
unfolding expire_claim
expire_claim-IsValid subject actor claim_id detected expired raw d {d'} e v = ground arith

pub authorize_retry-IsValid :
    (subject : String) (actor : Actor) (by reason : String) (at : Stamp) (d : Delivery)
    {d' : Delivery}
    → authorize_retry subject actor by reason at d ≡ ok d'
    → IsValid d
    → IsValid d'
unfolding authorize_retry
authorize_retry-IsValid subject actor by reason at d {d'} e v = ground arith

pub cancel_delivery-IsValid :
    (subject : String) (actor : Actor) (by reason : String) (at : Stamp) (d : Delivery)
    {d' : Delivery}
    → cancel_delivery subject actor by reason at d ≡ ok d'
    → IsValid d
    → IsValid d'
unfolding cancel_delivery
cancel_delivery-IsValid subject actor by reason at d {d'} e v = ground arith

pub resolve_uncertainty-IsValid :
    (subject : String) (actor : Actor) (resolution : Resolution) (d : Delivery) {d' : Delivery}
    → resolve_uncertainty subject actor resolution d ≡ ok d'
    → IsValid d
    → IsValid d'
unfolding resolve_uncertainty
resolve_uncertainty-IsValid subject actor resolution d {d'} e v = ground arith

pub is_fresh-IsValid : (d : Delivery) → is_fresh d ≡ true → IsValid d
is_fresh-IsValid d e = ground arith
