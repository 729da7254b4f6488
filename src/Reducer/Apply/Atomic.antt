-- ===== src/Reducer/Apply/Atomic.antt =====
-- runtime/state.js: the events that write only after all their checks.
use fdos_genesis.Prelude.{
  ◌≡◌, refl, inl, inr, Bool, true, false, String, Option, none, some, arith, Bool-cases,
}
use fdos_genesis.Kernel.Result.{FdosError, Result, ok, err}
use fdos_genesis.Kernel.Exec.{Exec, continue}
use fdos_genesis.Kernel.JsMap
use fdos_genesis.Kernel.Validation.{Stamp}
use fdos_genesis.Kernel.EventLog.{Actor}
use fdos_genesis.Model.{State, Delivery, Receipt, UnsignedReceipt, AcceptedInvocation, Memory}
use fdos_genesis.Reducer.Seals.{Seals}
use fdos_genesis.Reducer.Payload.{Payload, RuntimeEvent}
use fdos_genesis.Reducer.Store.{update_delivery, write_delivery, at_delivery}
use fdos_genesis.Reducer.Outbox.{prepare_delivery}
use fdos_genesis.Reducer.Approvals.{propose_memory}
use fdos_genesis.Reducer.Invocations.{
  accept_invocation, store_invocation, check_acceptance, check_attribution,
}
use fdos_genesis.Reducer.Apply.{
  report_delivery, dispatch, attribution, is_acceptance, apply_runtime_event,
}

-- The events of invocations and deliveries, the proposal of memory, and events of an unknown type.
abbrev pub checks_first : Payload → Bool
checks_first (Payload.invocation_accepted receipt at) = true
checks_first (Payload.invocation_failed failure) = true
checks_first (Payload.delivery_prepared delivery) = true
checks_first (Payload.delivery_claimed claim id) = true
checks_first (Payload.delivery_outcome claim_id id outcome receipt) = true
checks_first (Payload.delivery_claim_expired claim_id id detected expired outcome) = true
checks_first (Payload.delivery_retry at by id reason) = true
checks_first (Payload.delivery_cancelled at by id reason) = true
checks_first (Payload.delivery_resolved id resolution) = true
checks_first (Payload.memory_proposed m) = true
checks_first (Payload.unknown type) = true
checks_first _ = false

-- A throw leaves the state as it was.
abbrev IsAtomic : Exec State Unit → Type 0
IsAtomic m = (s : State) (x : FdosError) → (m s).0 ≡ err x → (m s).1 ≡ s

write_delivery-atomic :
    (id : String) (s : State) (r : Result Delivery) (x : FdosError)
    → (write_delivery id s r).0 ≡ err x
    → (write_delivery id s r).1 ≡ s
write_delivery-atomic id s (ok d) x h = cc
write_delivery-atomic id s (err e) x h = refl

at_delivery-atomic :
    (id : String) (f : Delivery → Result Delivery) (s : State) (o : Option Delivery) (x : FdosError)
    → (at_delivery id f s o).0 ≡ err x
    → (at_delivery id f s o).1 ≡ s
at_delivery-atomic id f s none x h = refl
at_delivery-atomic id f s (some d) x h = write_delivery-atomic id s (f d) x h

update_delivery-IsAtomic :
    (id : String) (f : Delivery → Result Delivery) → IsAtomic (update_delivery id f)
unfolding update_delivery
update_delivery-IsAtomic id f s x h = at_delivery-atomic id f s (JsMap.get id s.outbox) x h

store_invocation-atomic :
    (id : String) (s : State) (r : Result AcceptedInvocation) (x : FdosError)
    → (store_invocation id s r).0 ≡ err x
    → (store_invocation id s r).1 ≡ s
store_invocation-atomic id s (ok a) x h = cc
store_invocation-atomic id s (err e) x h = refl

accept_invocation-IsAtomic :
    (digest_of : UnsignedReceipt → String) (e : RuntimeEvent) (receipt : Receipt) (at : Stamp)
    → IsAtomic (accept_invocation digest_of e receipt at)
unfolding accept_invocation
accept_invocation-IsAtomic digest_of e receipt at s x h =
    store_invocation-atomic receipt.invocation_id s (check_acceptance digest_of e receipt at s) x h

prepare_delivery-IsAtomic :
    (seals : Seals) (subject : String) (actor : Actor) (d : Delivery)
    → IsAtomic (prepare_delivery seals subject actor d)
unfolding prepare_delivery
prepare_delivery-IsAtomic seals subject actor d s x h = ground arith

propose_memory-IsAtomic : (m : Memory) → IsAtomic (propose_memory m)
unfolding propose_memory
propose_memory-IsAtomic m s x h = ground arith

after_reading :
    (r : Result Unit) (m : Exec State Unit) (s : State) (x : FdosError)
    → ((m s).0 ≡ err x → (m s).1 ≡ s)
    → (continue r (λ _. m) s).0 ≡ err x
    → (continue r (λ _. m) s).1 ≡ s
after_reading (ok _) m s x k h = k h
after_reading (err e) m s x k h = refl

module _ (seals : Seals) where
  dispatch-IsAtomic :
      (e : RuntimeEvent) (p : Payload) → checks_first p ≡ true → IsAtomic (dispatch seals e p)
  unfolding dispatch report_delivery
  dispatch-IsAtomic e (Payload.invocation_accepted receipt at) c =
      accept_invocation-IsAtomic seals.receipt_digest e receipt at
  dispatch-IsAtomic e (Payload.invocation_failed failure) c = λ s x h. refl
  dispatch-IsAtomic e (Payload.delivery_prepared d) c =
      prepare_delivery-IsAtomic seals e.subject e.actor d
  dispatch-IsAtomic e (Payload.delivery_claimed claim id) c = update_delivery-IsAtomic id _
  dispatch-IsAtomic e (Payload.delivery_outcome claim_id id outcome receipt) c =
      λ s. update_delivery-IsAtomic id _ s
  dispatch-IsAtomic e (Payload.delivery_claim_expired claim_id id detected expired outcome) c =
      update_delivery-IsAtomic id _
  dispatch-IsAtomic e (Payload.delivery_retry at by id reason) c = update_delivery-IsAtomic id _
  dispatch-IsAtomic e (Payload.delivery_cancelled at by id reason) c = update_delivery-IsAtomic id _
  dispatch-IsAtomic e (Payload.delivery_resolved id resolution) c = update_delivery-IsAtomic id _
  dispatch-IsAtomic e (Payload.memory_proposed m) c = propose_memory-IsAtomic m
  dispatch-IsAtomic e (Payload.unknown type) c = λ s x h. refl
  dispatch-IsAtomic e _ c = cc

  -- An event of an invocation, of a delivery, of a memory proposal or of an unknown type that is
  -- refused leaves the whole state as it was.
  pub refused_event_changes_nothing :
      (e : RuntimeEvent) (s : State) (x : FdosError)
      → checks_first e.payload ≡ true
      → (apply_runtime_event seals e s).0 ≡ err x
      → (apply_runtime_event seals e s).1 ≡ s
  unfolding apply_runtime_event attribution
  refused_event_changes_nothing e s x c h = elim (Bool-cases (is_acceptance seals e.payload)) [
    | inl yes_ ↦ rw yes_ (dispatch-IsAtomic e e.payload c s x (rw yes_ at h))
    | inr no_ ↦ rw no_ (
        after_reading (check_attribution e s) (dispatch seals e e.payload) s x
          (dispatch-IsAtomic e e.payload c s x) (rw no_ at h))
  ]
