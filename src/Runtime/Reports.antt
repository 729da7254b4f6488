-- ===== src/Runtime/Reports.antt =====
-- `recordDeliveryOutcome`, `recordVerifiedWorkerOutcome` and `reconcileExpiredDelivery`: what became of
-- a claimed delivery.
use fdos_genesis.Prelude.{
  ℕ, Bool, true, false, not, ◌&&◌, String, Option, none, some, ◌is◌, if◌then◌else◌,
}
use fdos_genesis.Kernel.Result.{
  Result, ok, err, authorization, conflict, integrity, policy, type_error, validation, guard,
  or_throw,
}
use fdos_genesis.Kernel.Result
use fdos_genesis.Kernel.Exec.{Exec, lift, reading, ◌>>=◌, ◌>>◌}
use fdos_genesis.Kernel.Validation.{assert_id, iso, date_parse}
use fdos_genesis.Kernel.EventLog.{Actor}
use fdos_genesis.Domain.Policy.{later}
use fdos_genesis.Domain.Delivery.{normalize_delivery_outcome}
use fdos_genesis.Model.{Delivery, claimed, Claim, Outcome, OutcomeType, Evidence, WorkerReceipt}
use fdos_genesis.Reducer.Payload.{Payload}
use fdos_genesis.Reducer.Checks.{same_status, assert_worker_receipt_binding}
use fdos_genesis.Runtime.{Environment, Live, now, append, mutate, find_delivery}
use fdos_genesis.Runtime.Actors.{
  require_human, attributed_system_actor, assert_authenticated_operation,
  authenticated_connector_actor,
}
use fdos_genesis.Runtime.Outbox.{assert_current_connector_binding, expire_claim, has_expired}

module _ (env : Environment) where
  -- The receipt that a verified outcome needs, and that a generic one must not have.
  unfoldable pub bound_receipt :
      (required : Bool)
      → Option WorkerReceipt
      → Delivery
      → Claim
      → Outcome
      → Result (Option WorkerReceipt)
  bound_receipt true none d claim outcome = err validation
  bound_receipt true (some receipt) d claim outcome =
      Result.◌>>=◌ (assert_worker_receipt_binding env.seals receipt d claim outcome)
        (λ bound. ok (some bound))
  bound_receipt false (some receipt) d claim outcome = err validation
  bound_receipt false none d claim outcome = ok none

  unfoldable pub report :
      Actor
      → Delivery
      → Claim
      → OutcomeType
      → Evidence
      → (required : Bool) → Option WorkerReceipt
      → ℕ
      → Exec (Live env) Delivery
  report actor d claim type evidence required receipt at = do
    normalized ← lift (normalize_delivery_outcome type evidence)
    let outcome : Outcome = record {
      type = type;
      evidence = normalized;
      recorded_by = actor.id;
      recorded_at = iso at;
    }
    bound ← lift (bound_receipt required receipt d claim outcome)
    append env actor d.id (Payload.delivery_outcome claim.id d.id outcome bound)
    reading (find_delivery env d.id)

  unfoldable pub record_outcome :
      (operation : String)
      → (required : Bool) → Actor
      → (delivery_id claim_id : String) → OutcomeType
      → Evidence
      → Option WorkerReceipt
      → Exec (Live env) Delivery
  record_outcome operation required actor delivery_id claim_id type evidence receipt =
      mutate env (do
        known ← reading (authenticated_connector_actor env actor operation)
        d ← reading (find_delivery env delivery_id)
        lift (guard (d.intent.connector.id is known.id) authorization)
        lift (assert_current_connector_binding env d)
        lift (guard (same_status d.status claimed) conflict)
        id ← lift (assert_id claim_id)
        claim ← lift (or_throw d.claim type_error)
        lift (guard (claim.id is id && claim.connector_id is known.id) authorization)
        at ← now env
        (if has_expired env claim at
            then (expire_claim env "OUTCOME_AFTER_LEASE" known d claim known.id at
                >> lift (err conflict))
            else report known d claim type evidence required receipt at))

  unfoldable pub record_delivery_outcome :
      Actor
      → (delivery_id claim_id : String) → OutcomeType
      → Evidence
      → Option WorkerReceipt
      → Exec (Live env) Delivery
  record_delivery_outcome = record_outcome "outbox.record-outcome" false

  unfoldable pub record_verified_worker_outcome :
      Actor
      → (delivery_id claim_id : String) → OutcomeType
      → Evidence
      → Option WorkerReceipt
      → Exec (Live env) Delivery
  record_verified_worker_outcome = record_outcome "outbox.record-worker-outcome" true

  unfoldable pub reconcile_expired_delivery :
      Actor → (delivery_id : String) → Exec (Live env) Delivery
  reconcile_expired_delivery actor delivery_id = mutate env (do
    known ← lift (require_human env.agents actor)
    reading (assert_authenticated_operation env known "outbox.reconcile-expired")
    d ← reading (find_delivery env delivery_id)
    lift (guard (same_status d.status claimed) conflict)
    at ← now env
    claim ← lift (or_throw d.claim type_error)
    lift (guard (not (later (date_parse claim.expires_at) at)) conflict)
    expire_claim env "CLAIM_LEASE_RECONCILED" (attributed_system_actor known) d claim
        claim.connector_id at
    reading (find_delivery env d.id))
