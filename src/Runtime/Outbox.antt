-- ===== src/Runtime/Outbox.antt =====
-- The commands of the outbox: `prepareDelivery`, `claimDelivery`, `recordDeliveryOutcome`,
-- `recordVerifiedWorkerOutcome`, `reconcileExpiredDelivery`, and the checks they share.
use fdos_genesis.Prelude.{
  ℕ, ◌+◌, ◌*◌, ◌==◌, Bool, true, false, not, ◌&&◌, String, Option, none, some, [], ◌∷◌, leb, ◌is◌,
  same_option, is_some, if◌then◌else◌,
}
use fdos_genesis.Kernel.Result.{
  Result, ok, err, authorization, conflict, integrity, policy, type_error, validation, guard,
  or_throw,
}
use fdos_genesis.Kernel.Result
use fdos_genesis.Kernel.Exec.{Exec, pure, lift, reading, ◌>>=◌, ◌>>◌}
use fdos_genesis.Kernel.Validation.{Stamp, iso, date_parse}
use fdos_genesis.Kernel.Json.{Fields}
use fdos_genesis.Kernel.JsMap.{JsMap}
use fdos_genesis.Kernel.EventLog.{Actor}
use fdos_genesis.Domain.Roles.{assert_capability}
use fdos_genesis.Domain.Connectors.Registry.{Resolved, resolve_operation}
use fdos_genesis.Domain.Connectors.Parameters.{normalize_parameters, resolved_connector}
use fdos_genesis.Domain.Delivery.{normalize_delivery_outcome}
use fdos_genesis.Domain.Delivery.Create.{create_delivery_intent}
use fdos_genesis.Model.{
  Task, Delivery, DeliveryIntent, prepared, claimed, Claim, Outcome, OutcomeType,
  uncertain_evidence,
}
use fdos_genesis.Reducer.Payload.{Payload}
use fdos_genesis.Reducer.Checks.{same_status}
use fdos_genesis.Runtime.{
  Environment, Live, now, new_id, append, mutate, find_run, find_task, find_delivery,
}
use fdos_genesis.Runtime.Actors.{
  normalize_actor, assert_authenticated_operation, authenticated_connector_actor,
}
use fdos_genesis.Runtime.Tasks.{is_run_active, is_in_progress, held_by}
use fdos_genesis.Runtime.Completion.{is_for}

abbrev pub find_value : {V : Type 0} → (V → Bool) → JsMap V → Option V
find_value p [] = none
find_value p ((k, v) ∷ m) = if p v then some v else find_value p m

-- What `prepareDelivery` returns: whether the delivery was made, and the delivery.
abbrev pub new_delivery : (id : String) → DeliveryIntent → Stamp → Delivery
new_delivery id intent at = record {
  id = id;
  status = prepared;
  intent = intent;
  attempt = 0;
  max_attempts = intent.connector.max_attempts;
  claim = none;
  last_outcome = none;
  worker_receipt = none;
  worker_receipt_invocation_id = none;
  resolution = none;
  retryable = false;
  created_at = at;
  updated_at = at;
  completed_at = none;
}

module _ (env : Environment) where
  unfoldable pub assert_current_connector_binding : Delivery → Result Resolved
  assert_current_connector_binding d =
      Result.◌>>=◌ (resolve_operation env.connectors d.intent.connector.id d.intent.operation.id)
        (λ resolved.
          Result.◌>>◌
            (guard
              (resolved.contract.digest is d.intent.connector.contract_digest
                && resolved.operation.digest is d.intent.operation.digest)
              policy)
            (Result.◌>>=◌
              (normalize_parameters env.calls.measures resolved.operation.parameter_fields
                d.intent.parameters)
              (λ parameters.
                Result.◌>>◌
                  (guard
                    (env.seals.deliveries.parameters_digest parameters
                      is d.intent.parameters_digest)
                    integrity)
                  (ok resolved))))

  unfoldable pub assert_delivery_task_active : Delivery → Live env → Result Task
  assert_delivery_task_active d r = Result.◌>>=◌ (find_task env d.intent.task.id r) (λ task.
      Result.◌>>=◌ (find_run env task.run_id r) (λ run.
        Result.◌>>◌
          (guard
            (is_run_active run.status
              && is_in_progress task.status
              && same_option task.claimed_by (some d.intent.requested_by)
              && task.attempt == d.intent.task.attempt
              && task.action_intent.digest is d.intent.task.action_intent_digest)
            policy)
          (ok task)))

  -- A delivery for a key that has none yet, and for a task whose attempt has none.
  unfoldable pub create_delivery :
      Actor → Task → DeliveryIntent → Stamp → Exec (Live env) (Bool × Delivery)
  create_delivery actor task intent at = do
    existing ← reading (λ r. ok (find_value (is_for task) r.state.outbox))
    lift (guard (not (is_some existing)) conflict)
    id ← new_id env "delivery"
    append env actor id (Payload.delivery_prepared (new_delivery id intent at))
    d ← reading (find_delivery env id)
    pure (true, d)

  unfoldable pub reuse_or_create :
      Actor → Task → DeliveryIntent → Stamp → Option Delivery → Exec (Live env) (Bool × Delivery)
  reuse_or_create actor task intent at none = create_delivery actor task intent at
  reuse_or_create actor task intent at (some existing) =
      lift (guard (existing.intent.request_digest is intent.request_digest) conflict)
      >> pure (false, existing)

  unfoldable pub prepare_delivery :
      Actor
      → (task_id connector_id operation_id : String) → Fields
      → (idempotency_key : String) → Exec (Live env) (Bool × Delivery)
  prepare_delivery actor task_id connector_id operation_id parameters idempotency_key =
      mutate env (do
        known ← lift (normalize_actor env.agents false true actor)
        reading (assert_authenticated_operation env known "outbox.prepare")
        task ← reading (find_task env task_id)
        lift (guard (held_by task known) conflict)
        run ← reading (find_run env task.run_id)
        lift (guard (is_run_active run.status) conflict)
        resolved ← lift (resolve_operation env.connectors connector_id operation_id)
        role ← lift (or_throw known.role_id authorization)
        lift (assert_capability env.roles role resolved.operation.capability)
        normalized ←
            lift (
              normalize_parameters env.calls.measures resolved.operation.parameter_fields
                parameters)
        at ← now env
        intent ← lift (
            create_delivery_intent env.seals.deliveries env.calls.intent_digest env.catalog
              (resolved_connector resolved) task normalized known.id (iso at) idempotency_key)
        existing ← reading (λ r. ok (
            find_value (λ d. d.intent.idempotency_digest is intent.idempotency_digest)
              r.state.outbox))
        reuse_or_create known task intent (iso at) existing)

  -- The delivery of a lost claim goes to review; `code` says how the loss was found.
  unfoldable pub expired_outcome :
      (code : String) → Delivery → Claim → (recorded_by : String) → ℕ → Result Outcome
  expired_outcome code d claim recorded_by at =
      Result.◌>>=◌
        (normalize_delivery_outcome OutcomeType.uncertain (
          uncertain_evidence "none" code
            (env.calls.expiry_digest d.id claim.id claim.expires_at (iso at))))
        (λ evidence. ok (record {
          type = OutcomeType.uncertain;
          evidence = evidence;
          recorded_by = recorded_by;
          recorded_at = iso at;
        }))

  unfoldable pub expire_claim :
      (code : String)
      → Actor
      → Delivery
      → Claim
      → (recorded_by : String) → ℕ
      → Exec (Live env) (Unit {0})
  expire_claim code actor d claim recorded_by at = do
    outcome ← lift (expired_outcome code d claim recorded_by at)
    append env actor d.id
        (Payload.delivery_claim_expired claim.id d.id (iso at) claim.expires_at outcome)

  -- `new Date(claim.expiresAt) <= now`
  abbrev pub has_expired : Claim → ℕ → Bool
  has_expired claim at = elim (date_parse claim.expires_at) [ none ↦ false | some t ↦ leb t at ]

  unfoldable pub check_claimable : Delivery → Live env → Result (Unit {0})
  check_claimable d r = Result.◌>>◌ (guard (same_status d.status prepared) conflict) (
      Result.◌>>◌ (assert_delivery_task_active d r)
        (guard (not (leb d.max_attempts d.attempt)) policy))

  unfoldable pub claim_prepared :
      Actor → Delivery → (lease_seconds : ℕ) → ℕ → Exec (Live env) Delivery
  claim_prepared actor d lease_seconds at = do
    reading (check_claimable d)
    id ← new_id env "claim"
    append env actor d.id (
        Payload.delivery_claimed
          (record {
            id = id;
            connector_id = actor.id;
            attempt = d.attempt + 1;
            claimed_at = iso at;
            expires_at = iso (at + lease_seconds * 1000);
          })
          d.id)
    reading (find_delivery env d.id)

  -- A delivery with a claim: the claim is lost, or still active.
  unfoldable pub refuse_claimed : Actor → Delivery → ℕ → Exec (Live env) Delivery
  refuse_claimed actor d at = do
    claim ← lift (or_throw d.claim type_error)
    (if has_expired claim at
        then expire_claim "CLAIM_LEASE_EXPIRED" actor d claim actor.id at
        else pure tt)
    lift (err conflict)

  unfoldable pub claim_delivery :
      Actor → (delivery_id : String) → (lease_seconds : ℕ) → Exec (Live env) Delivery
  claim_delivery actor delivery_id lease_seconds = mutate env (do
    known ← reading (authenticated_connector_actor env actor "outbox.claim")
    lift (guard (leb 5 lease_seconds && leb lease_seconds 300) validation)
    d ← reading (find_delivery env delivery_id)
    lift (guard (d.intent.connector.id is known.id) authorization)
    lift (assert_current_connector_binding d)
    at ← now env
    (if same_status d.status claimed
        then refuse_claimed known d at
        else claim_prepared known d lease_seconds at))
