-- ===== src/Reducer/Apply.antt =====
-- runtime/state.js: `applyRuntimeEvent`, and the replay of a log.
mod Frames
pub mod Outbox
pub mod Bindings
pub mod History
pub mod Acceptance
pub mod Dispatch
pub mod Attribution
pub mod SingleUse
pub mod Atomic
pub mod Replay
pub mod Resume
use fdos_genesis.Prelude.{
  Bool, true, false, String, Option, none, some, List, [], ◌∷◌, if◌then◌else◌,
}
use fdos_genesis.Kernel.Result.{Result, ok, err, integrity}
use fdos_genesis.Kernel.Exec.{Exec, reading, pure, ◌>>=◌, ◌>>◌}
use fdos_genesis.Model.{State, empty_state, Outcome, WorkerReceipt}
use fdos_genesis.Reducer.Seals.{Seals}
use fdos_genesis.Reducer.Payload
use fdos_genesis.Reducer.Payload.{Payload, RuntimeEvent}
use fdos_genesis.Reducer.Deliveries.{
  claim_delivery, record_outcome, expire_claim, authorize_retry, cancel_delivery,
  resolve_uncertainty,
}
use fdos_genesis.Reducer.Store.{update_delivery}
use fdos_genesis.Reducer.Workflow.{
  start_run, ready_task, claim_task, complete_task, fail_task, retry_task, cancel_task,
  create_handoff, complete_run,
}
use fdos_genesis.Reducer.Approvals.{
  request_approval, grant_approval, deny_approval, expire_approval, consume_approval,
  propose_memory, review_memory,
}
use fdos_genesis.Reducer.Outbox.{prepare_delivery, invocation_of}
use fdos_genesis.Reducer.Invocations.{accept_invocation, check_failure, check_attribution}

module _ (seals : Seals) where
  unfoldable pub report_delivery :
      RuntimeEvent
      → (claim_id delivery_id : String) → Outcome
      → Option WorkerReceipt
      → Exec State (Unit {0})
  report_delivery e claim_id id outcome receipt s =
      update_delivery id
        (record_outcome seals e.subject e.actor (invocation_of e.actor.invocation_id s) claim_id
          outcome receipt)
        s

  -- The `switch` of `applyRuntimeEvent`, on the payload.
  unfoldable pub dispatch : RuntimeEvent → Payload → Exec State (Unit {0})
  dispatch e (Payload.invocation_accepted receipt at) =
      accept_invocation seals.receipt_digest e receipt at
  dispatch e (Payload.invocation_failed failure) = reading (check_failure e failure)
  dispatch e (Payload.run_started run tasks) = start_run seals.definition_digest run tasks
  dispatch e (Payload.task_ready id at) = ready_task id at
  dispatch e (Payload.task_claimed id by at) = claim_task id by at
  dispatch e (Payload.task_completed id result digest at) = complete_task id result digest at
  dispatch e (Payload.task_failed id reason retryable at) = fail_task id reason retryable at
  dispatch e (Payload.task_retry_authorized id attempt at) = retry_task id attempt at
  dispatch e (Payload.task_cancelled id at) = cancel_task id at
  dispatch e (Payload.handoff_created parent child at) = create_handoff parent child at
  dispatch e (Payload.handoff_returned parent at) = ready_task parent at
  dispatch e (Payload.approval_requested approval) = request_approval approval
  dispatch e (Payload.approval_granted id by at expires) = grant_approval id by at expires
  dispatch e (Payload.approval_denied id by at reason) = deny_approval id by at reason
  dispatch e (Payload.approval_expired id at) = expire_approval id at
  dispatch e (Payload.approval_consumed id at) = consume_approval id at
  dispatch e (Payload.delivery_prepared delivery) =
      prepare_delivery seals e.subject e.actor delivery
  dispatch e (Payload.delivery_claimed claim id) =
      update_delivery id (claim_delivery e.subject e.actor claim)
  dispatch e (Payload.delivery_outcome claim_id id outcome receipt) =
      report_delivery e claim_id id outcome receipt
  dispatch e (Payload.delivery_claim_expired claim_id id detected expired outcome) =
      update_delivery id (expire_claim e.subject e.actor claim_id detected expired outcome)
  dispatch e (Payload.delivery_retry at by id reason) =
      update_delivery id (authorize_retry e.subject e.actor by reason at)
  dispatch e (Payload.delivery_cancelled at by id reason) =
      update_delivery id (cancel_delivery e.subject e.actor by reason at)
  dispatch e (Payload.delivery_resolved id resolution) =
      update_delivery id (resolve_uncertainty e.subject e.actor resolution)
  dispatch e (Payload.memory_proposed m) = propose_memory m
  dispatch e (Payload.memory_reviewed id decision by at reason) =
      review_memory id decision by at reason
  dispatch e (Payload.run_completed id digest head at) = complete_run id digest head at
  dispatch e (Payload.unknown type) = reading (λ s. err integrity)

  abbrev pub is_acceptance : Payload → Bool
  is_acceptance (Payload.invocation_accepted receipt at) = true
  is_acceptance _ = false

  -- The attribution of an event, which the acceptance of an invocation does not need.
  unfoldable pub attribution : RuntimeEvent → Exec State (Unit {0})
  attribution e = if is_acceptance e.payload then pure tt else reading (check_attribution e)

  unfoldable pub apply_runtime_event : RuntimeEvent → Exec State (Unit {0})
  unfolding attribution
  apply_runtime_event e = do attribution e; dispatch e e.payload

  -- `rehydrate`: the first error ends the replay.
  unfoldable pub replay : List RuntimeEvent → Exec State (Unit {0})
  replay [] = pure tt
  replay (e ∷ es) = apply_runtime_event e >>= λ _. replay es
