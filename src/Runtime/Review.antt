-- ===== src/Runtime/Review.antt =====
-- `retryDelivery`, `cancelDelivery`, `resolveUncertainDelivery`, `getDelivery` and `listOutbox`: what a
-- human decides of a delivery, and who may see it.
use fdos_genesis.Prelude.{
  Bool, true, false, not, ◌&&◌, ◌||◌, String, Option, none, some, List, [], ◌∷◌, leb, ◌is◌, is_some,
  if◌then◌else◌,
}
use fdos_genesis.Kernel.Result.{
  Result, ok, err, authorization, conflict, integrity, not_found, policy, type_error, validation,
  guard, or_throw,
}
use fdos_genesis.Kernel.Result
use fdos_genesis.Kernel.Exec.{Exec, lift, reading, ◌>>=◌, ◌>>◌}
use fdos_genesis.Kernel.Validation.{required_string, anything, iso}
use fdos_genesis.Kernel.EventLog.{Actor}
use fdos_genesis.Domain.Roles.{assert_task_read, has_capability}
use fdos_genesis.Domain.Delivery.{normalized_digest}
use fdos_genesis.Model.{Delivery, DeliveryStatus, prepared, Decision}
use fdos_genesis.Reducer.Payload.{Payload}
use fdos_genesis.Reducer.Checks.{same_status, is_human}
use fdos_genesis.Runtime.{
  Environment, Live, now, append, mutate, assert_open, find_task, find_delivery,
}
use fdos_genesis.Runtime.Actors.{normalize_actor, require_human, assert_authenticated_operation}
use fdos_genesis.Runtime.Completion.{filter_values}
use fdos_genesis.Runtime.Outbox.{assert_current_connector_binding, assert_delivery_task_active}

abbrev pub is_delivery_failed : DeliveryStatus → Bool
is_delivery_failed s = same_status s DeliveryStatus.failed

-- The result and the retry that go with each decision; what does not go with it is refused.
unfoldable pub normalize_decision :
    Decision
    → (result_digest : Option String) → (retryable : Option Bool) → Result (Option String × Bool)
normalize_decision Decision.confirmed_simulated result_digest retryable =
    Result.◌>>=◌ (or_throw result_digest validation) (λ given.
      Result.◌>>=◌ (normalized_digest given) (λ digest.
        Result.◌>>◌ (guard (not (is_some retryable)) validation) (ok (some digest, false))))
normalize_decision Decision.failed result_digest retryable =
    Result.◌>>=◌ (or_throw retryable validation)
      (λ flag. Result.◌>>◌ (guard (not (is_some result_digest)) validation) (ok (none, flag)))
normalize_decision Decision.cancelled result_digest retryable =
    Result.◌>>◌ (guard (not (is_some result_digest || is_some retryable)) validation)
      (ok (none, false))

module _ (env : Environment) where
  unfoldable pub check_delivery_retryable : Delivery → Live env → Result (Unit {0})
  check_delivery_retryable d r =
      Result.◌>>◌ (guard (is_delivery_failed d.status && d.retryable) conflict) (
        Result.◌>>◌ (assert_current_connector_binding env d) (
          Result.◌>>◌ (assert_delivery_task_active env d r)
            (guard (not (leb d.max_attempts d.attempt)) policy)))

  unfoldable pub retry_delivery : Actor → (delivery_id reason : String) → Exec (Live env) Delivery
  retry_delivery actor delivery_id reason = mutate env (do
    known ← lift (require_human env.agents actor)
    reading (assert_authenticated_operation env known "outbox.retry")
    d ← reading (find_delivery env delivery_id)
    reading (check_delivery_retryable d)
    at ← now env
    text ← lift (required_string 1 2000 anything reason)
    append env known d.id (Payload.delivery_retry (iso at) known.id d.id text)
    reading (find_delivery env d.id))

  unfoldable pub cancel_delivery : Actor → (delivery_id reason : String) → Exec (Live env) Delivery
  cancel_delivery actor delivery_id reason = mutate env (do
    known ← lift (require_human env.agents actor)
    reading (assert_authenticated_operation env known "outbox.cancel")
    d ← reading (find_delivery env delivery_id)
    lift (guard (same_status d.status prepared || is_delivery_failed d.status) conflict)
    at ← now env
    text ← lift (required_string 1 2000 anything reason)
    append env known d.id (Payload.delivery_cancelled (iso at) known.id d.id text)
    reading (find_delivery env d.id))

  unfoldable pub resolve_uncertain_delivery :
      Actor
      → (delivery_id : String) → Decision
      → (reason evidence_digest : String) → (result_digest : Option String)
      → (retryable : Option Bool) → Exec (Live env) Delivery
  resolve_uncertain_delivery actor delivery_id decision reason evidence_digest result_digest
        retryable =
      mutate env (do
        known ← lift (require_human env.agents actor)
        reading (assert_authenticated_operation env known "outbox.resolve-uncertain")
        d ← reading (find_delivery env delivery_id)
        lift (guard (same_status d.status DeliveryStatus.uncertain) conflict)
        evidence ← lift (normalized_digest evidence_digest)
        decided ← lift (normalize_decision decision result_digest retryable)
        at ← now env
        text ← lift (required_string 1 2000 anything reason)
        append env known d.id (
            Payload.delivery_resolved d.id (record {
              decision = decision;
              reason = text;
              evidence_digest = evidence;
              result_digest = decided.0;
              retryable = decided.1;
              resolved_by = known.id;
              resolved_at = iso at;
            }))
        reading (find_delivery env d.id))

  unfoldable pub get_delivery : (delivery_id : String) → Actor → Live env → Result Delivery
  get_delivery delivery_id actor r = Result.◌>>◌ (assert_open env r) (
      Result.◌>>=◌ (normalize_actor env.agents true true actor) (λ known.
        Result.◌>>◌ (assert_authenticated_operation env known "outbox.get" r) (
          Result.◌>>=◌ (find_delivery env delivery_id r) (λ d.
            Result.◌>>=◌ (find_task env d.intent.task.id r)
              (λ task. Result.◌>>◌ (assert_task_read env.roles known task.owner_role_id) (ok d))))))

  -- Whether a delivery is on an actor's list: all are on a human's.
  unfoldable pub is_visible : Actor → Live env → Delivery → Result Bool
  is_visible actor r d =
      if is_human actor.type
      then ok true
      else Result.◌>>=◌ (find_task env d.intent.task.id r) (λ task.
        Result.◌>>=◌ (or_throw actor.role_id not_found) (λ role.
          if task.owner_role_id is role
          then ok true
          else has_capability env.roles role "task:read:any"))

  unfoldable pub visible : Actor → Live env → List Delivery → Result (List Delivery)
  visible actor r [] = ok []
  visible actor r (d ∷ ds) = Result.◌>>=◌ (is_visible actor r d) (λ shown.
      Result.◌>>=◌ (visible actor r ds) (λ others. ok (if shown then d ∷ others else others)))

  abbrev pub has_status : Option DeliveryStatus → Delivery → Bool
  has_status none d = true
  has_status (some s) d = same_status d.status s

  unfoldable pub list_outbox : Actor → Option DeliveryStatus → Live env → Result (List Delivery)
  list_outbox actor status r = Result.◌>>◌ (assert_open env r) (
      Result.◌>>=◌ (normalize_actor env.agents true true actor) (λ known.
        Result.◌>>◌ (assert_authenticated_operation env known "outbox.list" r)
          (visible known r (filter_values (has_status status) r.state.outbox))))
