-- ===== src/Reducer/Apply/Dispatch.antt =====
-- runtime/state.js: what every event does to the outbox.
use fdos_genesis.Prelude.{◌≡◌, sym, ap, some, subst, inl, inr, String, Option, Bool-cases}
use fdos_genesis.Kernel.Result.{Result, ok, err}
use fdos_genesis.Kernel.Exec.{Exec, continue, ◌>>=◌}
use fdos_genesis.Kernel.Exec.Leaves.{Leaves, Leaves-reading, Leaves-pure}
use fdos_genesis.Kernel.JsMap.{JsMap, AllValues, AllValues-get}
use fdos_genesis.Kernel.JsMap
use fdos_genesis.Kernel.EventLog.{Actor}
use fdos_genesis.Model.{Delivery, State, Outcome, WorkerReceipt}
use fdos_genesis.Reducer.Seals.{Seals}
use fdos_genesis.Reducer.Payload.{Payload, RuntimeEvent}
use fdos_genesis.Reducer.Deliveries.{record_outcome}
use fdos_genesis.Reducer.Deliveries.Valid.{
  IsValid, claim_delivery-IsValid, record_outcome-IsValid, expire_claim-IsValid,
  authorize_retry-IsValid, cancel_delivery-IsValid, resolve_uncertainty-IsValid,
}
use fdos_genesis.Reducer.Deliveries.Moves.{
  claim_delivery-Moves, record_outcome-Moves, expire_claim-Moves, authorize_retry-Moves,
  cancel_delivery-Moves, resolve_uncertainty-Moves,
}
use fdos_genesis.Reducer.Store.{update_delivery}
use fdos_genesis.Reducer.Outbox.{invocation_of}
use fdos_genesis.Reducer.Apply.{
  report_delivery, dispatch, attribution, is_acceptance, apply_runtime_event,
}
use fdos_genesis.Reducer.Apply.Acceptance.{accept_invocation-Orderly}
use fdos_genesis.Reducer.Apply.Outbox.{
  Evolves, Recalls, Evolves-refl, Orderly, Leaves-Orderly, update_delivery-Orderly,
  prepare_delivery-Orderly,
}
use fdos_genesis.Reducer.Apply.Frames.{
  rest, ready_task-Leaves, claim_task-Leaves, complete_task-Leaves, fail_task-Leaves,
  retry_task-Leaves, cancel_task-Leaves, create_handoff-Leaves, complete_run-Leaves,
  grant_approval-Leaves, deny_approval-Leaves, expire_approval-Leaves, consume_approval-Leaves,
  review_memory-Leaves, propose_memory-Leaves, request_approval-Leaves, start_run-Leaves,
}
use fdos_genesis.Reducer.Apply.Bindings.{IsBound}

then_moves :
    (actor : Actor) (id : String) (s s' : State) (r : Result Unit) (f : Unit → Exec State Unit)
    → s'.outbox ≡ s.outbox
    → ((u : Unit) → Orderly actor (f u))
    → Evolves actor (JsMap.get id s.outbox) (JsMap.get id (continue r f s').1.outbox)
then_moves actor id s s' (ok u) f q h =
    subst (λ o. Evolves actor (JsMap.get id o) (JsMap.get id (f u s').1.outbox)) q
      ((h u).moves s' id)
then_moves actor id s s' (err e) f q h =
    subst (λ o. Evolves actor (JsMap.get id s.outbox) (JsMap.get id o)) (sym q)
      (Evolves-refl actor _)

then_keeps :
    (actor : Actor) (P : JsMap Delivery → Type 0) (s s' : State) (r : Result Unit)
    (f : Unit → Exec State Unit)
    → s'.outbox ≡ s.outbox
    → ((u : Unit) (t : State) → P t.outbox → P (f u t).1.outbox)
    → P s.outbox
    → P (continue r f s').1.outbox
then_keeps actor P s s' (ok u) f q h v = h u s' (subst P (sym q) v)
then_keeps actor P s s' (err e) f q h v = subst P (sym q) v

then-Recalls :
    (actor : Actor) (s s' : State) (r : Result Unit) (f : Unit → Exec State Unit)
    → s'.accepted_invocations ≡ s.accepted_invocations
    → ((u : Unit) → Orderly actor (f u))
    → Recalls s (continue r f s').1
then-Recalls actor s s' (ok u) f q h id a found =
    (h u).recalls s' id a (subst (λ o. JsMap.get id o ≡ some a) (sym q) found)
then-Recalls actor s s' (err e) f q h id a found =
    subst (λ o. JsMap.get id o ≡ some a) (sym q) found

Leaves-then-Orderly :
    (actor : Actor) (m : Exec State Unit) (f : Unit → Exec State Unit)
    → Leaves rest m
    → ((u : Unit) → Orderly actor (f u))
    → Orderly actor (m >>= f)
Leaves-then-Orderly actor m f l h =
    let same_outbox = λ (s : State). ap (λ x. x.0) (l.at s) in
    record {
      moves = λ s id. then_moves actor id s (m s).1 (m s).0 f (same_outbox s) h;
      valid = λ s.
          then_keeps actor (AllValues IsValid) s (m s).1 (m s).0 f (same_outbox s)
            (λ u. (h u).valid);
      bound = λ s. then_keeps actor IsBound s (m s).1 (m s).0 f (same_outbox s) (λ u. (h u).bound);
      recalls = λ s. then-Recalls actor s (m s).1 (m s).0 f (ap (λ x. x.1) (l.at s)) h;
    }

module _ (seals : Seals) where
  reported_at :
      (e : RuntimeEvent) (claim_id id : String) (outcome : Outcome) (receipt : Option WorkerReceipt)
      (s : State)
      → Orderly e.actor (
          update_delivery id (
            record_outcome seals e.subject e.actor
              (invocation_of e.actor.invocation_id s)
              claim_id
              outcome
              receipt))
  reported_at e claim_id id outcome receipt s =
      update_delivery-Orderly e.actor id _
        (λ d d' h.
          record_outcome-Moves seals e.subject e.actor (invocation_of e.actor.invocation_id s)
            claim_id outcome receipt d h)
        (λ d d' h.
          record_outcome-IsValid seals e.subject e.actor (invocation_of e.actor.invocation_id s)
            claim_id outcome receipt d h)

  report_delivery-Orderly :
      (e : RuntimeEvent) (claim_id id : String) (outcome : Outcome) (receipt : Option WorkerReceipt)
      → Orderly e.actor (report_delivery seals e claim_id id outcome receipt)
  unfolding report_delivery
  report_delivery-Orderly e claim_id id outcome receipt = record {
    moves = λ s. (reported_at e claim_id id outcome receipt s).moves s;
    valid = λ s. (reported_at e claim_id id outcome receipt s).valid s;
    bound = λ s. (reported_at e claim_id id outcome receipt s).bound s;
    recalls = λ s. (reported_at e claim_id id outcome receipt s).recalls s;
  }

  pub dispatch-Orderly : (e : RuntimeEvent) (p : Payload) → Orderly e.actor (dispatch seals e p)
  unfolding dispatch
  dispatch-Orderly e (Payload.invocation_accepted receipt at) =
      accept_invocation-Orderly seals.receipt_digest e receipt at
  dispatch-Orderly e (Payload.invocation_failed failure) =
      Leaves-Orderly e.actor _ (Leaves-reading _)
  dispatch-Orderly e (Payload.run_started run tasks) =
      Leaves-Orderly e.actor _ (start_run-Leaves seals.definition_digest run tasks)
  dispatch-Orderly e (Payload.task_ready id at) = Leaves-Orderly e.actor _ (ready_task-Leaves id at)
  dispatch-Orderly e (Payload.task_claimed id by at) =
      Leaves-Orderly e.actor _ (claim_task-Leaves id by at)
  dispatch-Orderly e (Payload.task_completed id result digest at) =
      Leaves-Orderly e.actor _ (complete_task-Leaves id result digest at)
  dispatch-Orderly e (Payload.task_failed id reason retryable at) =
      Leaves-Orderly e.actor _ (fail_task-Leaves id reason retryable at)
  dispatch-Orderly e (Payload.task_retry_authorized id attempt at) =
      Leaves-Orderly e.actor _ (retry_task-Leaves id attempt at)
  dispatch-Orderly e (Payload.task_cancelled id at) =
      Leaves-Orderly e.actor _ (cancel_task-Leaves id at)
  dispatch-Orderly e (Payload.handoff_created parent child at) =
      Leaves-Orderly e.actor _ (create_handoff-Leaves parent child at)
  dispatch-Orderly e (Payload.handoff_returned parent at) =
      Leaves-Orderly e.actor _ (ready_task-Leaves parent at)
  dispatch-Orderly e (Payload.approval_requested approval) =
      Leaves-Orderly e.actor _ (request_approval-Leaves approval)
  dispatch-Orderly e (Payload.approval_granted id by at expires) =
      Leaves-Orderly e.actor _ (grant_approval-Leaves id by at expires)
  dispatch-Orderly e (Payload.approval_denied id by at reason) =
      Leaves-Orderly e.actor _ (deny_approval-Leaves id by at reason)
  dispatch-Orderly e (Payload.approval_expired id at) =
      Leaves-Orderly e.actor _ (expire_approval-Leaves id at)
  dispatch-Orderly e (Payload.approval_consumed id at) =
      Leaves-Orderly e.actor _ (consume_approval-Leaves id at)
  dispatch-Orderly e (Payload.delivery_prepared delivery) =
      prepare_delivery-Orderly seals e.subject e.actor delivery
  dispatch-Orderly e (Payload.delivery_claimed claim id) =
      update_delivery-Orderly e.actor id _
        (λ d d' h. claim_delivery-Moves e.subject e.actor claim d h)
        (λ d d' h. claim_delivery-IsValid e.subject e.actor claim d h)
  dispatch-Orderly e (Payload.delivery_outcome claim_id id outcome receipt) =
      report_delivery-Orderly e claim_id id outcome receipt
  dispatch-Orderly e (Payload.delivery_claim_expired claim_id id detected expired outcome) =
      update_delivery-Orderly e.actor id _
        (λ d d' h. expire_claim-Moves e.subject e.actor claim_id detected expired outcome d h)
        (λ d d' h. expire_claim-IsValid e.subject e.actor claim_id detected expired outcome d h)
  dispatch-Orderly e (Payload.delivery_retry at by id reason) =
      update_delivery-Orderly e.actor id _
        (λ d d' h. authorize_retry-Moves e.subject e.actor by reason at d h)
        (λ d d' h. authorize_retry-IsValid e.subject e.actor by reason at d h)
  dispatch-Orderly e (Payload.delivery_cancelled at by id reason) =
      update_delivery-Orderly e.actor id _
        (λ d d' h. cancel_delivery-Moves e.subject e.actor by reason at d h)
        (λ d d' h. cancel_delivery-IsValid e.subject e.actor by reason at d h)
  dispatch-Orderly e (Payload.delivery_resolved id resolution) =
      update_delivery-Orderly e.actor id _
        (λ d d' h. resolve_uncertainty-Moves e.subject e.actor resolution d h)
        (λ d d' h. resolve_uncertainty-IsValid e.subject e.actor resolution d h)
  dispatch-Orderly e (Payload.memory_proposed m) =
      Leaves-Orderly e.actor _ (propose_memory-Leaves m)
  dispatch-Orderly e (Payload.memory_reviewed id decision by at reason) =
      Leaves-Orderly e.actor _ (review_memory-Leaves id decision by at reason)
  dispatch-Orderly e (Payload.run_completed id digest head at) =
      Leaves-Orderly e.actor _ (complete_run-Leaves id digest head at)
  dispatch-Orderly e (Payload.unknown type) = Leaves-Orderly e.actor _ (Leaves-reading _)

  attribution-Leaves : (e : RuntimeEvent) → Leaves rest (attribution seals e)
  unfolding attribution
  attribution-Leaves e = elim (Bool-cases (is_acceptance seals e.payload)) [
    | inl p ↦ rw p (Leaves-pure _)
    | inr p ↦ rw p (Leaves-reading _)
  ]

  pub apply_runtime_event-Orderly :
      (e : RuntimeEvent) → Orderly e.actor (apply_runtime_event seals e)
  unfolding apply_runtime_event
  apply_runtime_event-Orderly e =
      Leaves-then-Orderly e.actor _ _ (attribution-Leaves e) (λ _. dispatch-Orderly e e.payload)

  -- An event that is applied to any state, accepted or refused, leaves each entry of the outbox
  -- as it was, adds a fresh delivery under a key that had none, or replaces the delivery by one
  -- that is one move of the state machine further, a move that the type of the event's actor may
  -- make, with the same id, intent, budget and creation time and one attempt more if the move is a
  -- claim.
  pub event_moves_deliveries :
      (e : RuntimeEvent) (s : State) (id : String)
      → Evolves e.actor
          (JsMap.get id s.outbox)
          (JsMap.get id (apply_runtime_event seals e s).1.outbox)
  event_moves_deliveries e = (apply_runtime_event-Orderly e).moves
