-- ===== src/Runtime/Authenticated.antt =====
-- `acceptAuthenticatedInvocation` and `executeAuthenticatedCommand`: one transaction for a command
-- with the acceptance of its invocation, and what stays of it when the command fails.
use fdos_genesis.Prelude.{
  Bool, true, false, not, ◌&&◌, String, none, some, List, [], ◌∷◌, if◌then◌else◌, contains,
}
use fdos_genesis.Kernel.Result.{
  FdosError, Result, ok, err, validation, authorization, conflict, integrity, persistence,
  not_found, policy, type_error, database_error, guard, or_throw,
}
use fdos_genesis.Kernel.Result
use fdos_genesis.Kernel.Exec.{Exec, pure, lift, reading, attempt, ◌>>=◌, ◌>>◌}
use fdos_genesis.Kernel.Validation.{iso}
use fdos_genesis.Kernel.Json.{Json}
use fdos_genesis.Kernel.JsMap
use fdos_genesis.Kernel.EventLog.{Actor}
use fdos_genesis.Kernel.Store
use fdos_genesis.Kernel.Store.Transactions.{transaction, with_savepoint}
use fdos_genesis.Identity.{verify_invocation_receipt}
use fdos_genesis.Domain.Connectors.Registry.{is_connector_type, resolve_connector}
use fdos_genesis.Model.{Receipt}
use fdos_genesis.Reducer.Payload.{Payload}
use fdos_genesis.Runtime.{
  Environment, Live, Command, store_of, put_store, now, append, mutate, rehydrate,
}
use fdos_genesis.Runtime.Actors.{normalize_actor}

-- CONNECTOR_WORKER_OPERATIONS
abbrev pub connector_operations : List String
connector_operations =
    "outbox.claim" ∷ "outbox.record-outcome" ∷ "outbox.record-worker-outcome" ∷ []

-- `recordableCommandFailure`; an error of another kind ends the transaction.
unfoldable pub is_recordable : FdosError → Bool
is_recordable validation = true
is_recordable authorization = true
is_recordable conflict = true
is_recordable not_found = true
is_recordable policy = true
is_recordable _ = false

-- `error.code` and `error.name`
abbrev pub error_code : FdosError → String
error_code validation = "VALIDATION_ERROR"
error_code authorization = "AUTHORIZATION_DENIED"
error_code conflict = "STATE_CONFLICT"
error_code integrity = "INTEGRITY_ERROR"
error_code persistence = "PERSISTENCE_ERROR"
error_code not_found = "NOT_FOUND"
error_code policy = "POLICY_DENIED"
error_code type_error = ""
error_code database_error = "ERR_SQLITE_ERROR"

abbrev pub error_type : FdosError → String
error_type validation = "ValidationError"
error_type authorization = "AuthorizationError"
error_type conflict = "ConflictError"
error_type integrity = "IntegrityError"
error_type persistence = "PersistenceError"
error_type not_found = "NotFoundError"
error_type policy = "PolicyError"
error_type type_error = "TypeError"
error_type database_error = "Error"

-- What `acceptAuthenticatedInvocation` returns.
pub record Accepted : Type 0 where
  pub actor : Actor
  pub receipt : Receipt

module _ (env : Environment) where
  abbrev pub principal_of : Receipt → Actor
  principal_of receipt = record {
    type = receipt.principal_type;
    id = receipt.principal_id;
    role_id = none;
    invocation_id = some receipt.invocation_id;
    correlation_id = some receipt.correlation_id;
  }

  -- The actor that a receipt names, attributed to its invocation.
  unfoldable pub receipt_actor : Receipt → Result Actor
  receipt_actor receipt =
      if is_connector_type receipt.principal_type
      then Result.◌>>=◌ (resolve_connector env.connectors (principal_of receipt)) (λ known.
        ok (record known {
          invocation_id = some receipt.invocation_id;
          correlation_id = some receipt.correlation_id;
        }))
      else normalize_actor env.agents true true (principal_of receipt)

  unfoldable pub verify_receipt : Json → Command → Result Receipt
  verify_receipt invocation command =
      Result.◌>>=◌ (or_throw env.calls.verify_invocation policy) (λ verify.
        Result.◌>>=◌ (verify invocation command) (λ receipt.
          Result.◌>>◌ (verify_invocation_receipt env.seals.receipt_digest receipt) (
            Result.◌>>◌
              (guard
                (not (
                  is_connector_type receipt.principal_type
                  && not (contains command.type connector_operations)))
                authorization)
              (ok receipt))))

  unfoldable pub accept_authenticated_invocation : Json → Command → Exec (Live env) Accepted
  accept_authenticated_invocation invocation command = mutate env (do
    reading (λ r. Result.◌>>◌ (or_throw env.calls.verify_invocation policy) (ok tt))
    reading (λ r. guard (Store.in_transaction r.store) policy)
    receipt ← lift (verify_receipt invocation command)
    reading
        (λ r. guard (not (JsMap.has receipt.invocation_id r.state.accepted_invocations)) conflict)
    actor ← lift (receipt_actor receipt)
    append env actor (env.calls.invocation_subject command receipt.invocation_id)
        (Payload.invocation_accepted receipt receipt.verified_at)
    pure (record { actor = actor; receipt = receipt }))

  -- `commandFailureEvidence`, appended.
  unfoldable pub record_failure : Command → Accepted → FdosError → Exec (Live env) (Unit {0})
  record_failure command accepted error = do
    at ← now env
    append env accepted.actor (env.calls.invocation_subject command accepted.receipt.invocation_id)
        (Payload.invocation_failed (record {
          invocation_id = accepted.receipt.invocation_id;
          operation = accepted.receipt.operation;
          command_digest = accepted.receipt.command_digest;
          error_code = error_code error;
          error_type = error_type error;
          message_digest = env.calls.failure_digest error;
          failed_at = iso at;
        }))

  module _ {A : Type 0} where
    -- A failure that may be recorded is a value; any other is thrown on.
    abbrev pub as_outcome : FdosError → Exec (Live env) (Result A)
    as_outcome e = if is_recordable e then pure (err e) else lift (err e)

    unfoldable pub run_executor :
        Accepted → (Actor → Exec (Live env) A) → Exec (Live env) (Result A)
    run_executor accepted executor =
        with_savepoint env.sqlite env.outside (store_of env) (put_store env)
          (attempt (do value ← executor accepted.actor; pure (ok value)) as_outcome)

    unfoldable pub settle : Command → Accepted → Result A → Exec (Live env) (Result A)
    settle command accepted (ok value) = pure (ok value)
    settle command accepted (err e) = record_failure command accepted e >> pure (err e)

    -- The operation of the transaction.
    unfoldable pub accept_and_run :
        Json → Command → (Actor → Exec (Live env) A) → Exec (Live env) (Result A)
    accept_and_run invocation command executor = do
      accepted ← accept_authenticated_invocation invocation command
      outcome ← run_executor accepted executor
      settle command accepted outcome

    -- What a transaction that failed leaves: the state made again from the log, and the error.
    unfoldable pub recover : FdosError → Exec (Live env) (Result A)
    recover e = do rehydrate env; lift (err e)

    unfoldable pub execute_authenticated_command :
        Json → Command → (Actor → Exec (Live env) A) → Exec (Live env) A
    execute_authenticated_command invocation command executor = do
      outcome ← mutate env (
          attempt
            (transaction env.sqlite env.outside (store_of env) (put_store env)
              (accept_and_run invocation command executor))
            recover)
      lift outcome
