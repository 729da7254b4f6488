-- ===== src/Reducer/Apply/SingleUse.antt =====
-- runtime/state.js: the invocations that events are attributed to, over the replay of a log.
use fdos_genesis.Prelude.{
  ◌≡◌, ◌≢◌, refl, sym, subst, inl, inr, true, String, some, List, [], ◌∷◌, arith, Bool-cases,
}
use fdos_genesis.Kernel.Result.{Result, ok, err}
use fdos_genesis.Kernel.Exec.{Exec, continue}
use fdos_genesis.Kernel.Validation.{Stamp}
use fdos_genesis.Kernel.JsMap.{JsMap, get-set}
use fdos_genesis.Kernel.JsMap
use fdos_genesis.Model.{State, AcceptedInvocation, Receipt, UnsignedReceipt}
use fdos_genesis.Reducer.Seals.{Seals}
use fdos_genesis.Reducer.Payload.{Payload, RuntimeEvent}
use fdos_genesis.Reducer.Invocations.{
  check_acceptance, store_invocation, accept_invocation, check_attribution,
}
use fdos_genesis.Reducer.Apply.{dispatch, attribution, is_acceptance, apply_runtime_event, replay}
use fdos_genesis.Reducer.Apply.Acceptance.{check_acceptance-new}
use fdos_genesis.Reducer.Apply.Outbox.{Recalls}
use fdos_genesis.Reducer.Apply.Dispatch.{apply_runtime_event-Orderly, dispatch-Orderly}
use fdos_genesis.Reducer.Apply.Attribution.{
  Attributed, check_attribution-Attributed, accept_invocation-Attributed,
}

Attributed-recalled :
    (e : RuntimeEvent) (id : String) (s s' : State)
    → Recalls s s'
    → Attributed e id s
    → Attributed e id s'
Attributed-recalled e id s s' r a = record {
  accepted = a.accepted;
  found = r id a.accepted a.found;
  same_transaction = a.same_transaction;
  same_correlation = a.same_correlation;
}

is_acceptance-eq-true :
    (seals : Seals) (p : Payload)
    → is_acceptance seals p ≡ true
    → (receipt : Receipt) × (at : Stamp) × (p ≡ Payload.invocation_accepted receipt at)
is_acceptance-eq-true seals (Payload.invocation_accepted receipt at) h = (receipt, at, refl)
is_acceptance-eq-true seals _ h = cc

-- What follows a check that passes or throws.
after_check :
    (e : RuntimeEvent) (id : String) (s : State) (r : Result Unit) (m : Exec State Unit)
    → (r ≡ ok tt → Attributed e id s)
    → Recalls s (m s).1
    → (continue r (λ _. m) s).0 ≡ ok tt
    → Attributed e id (continue r (λ _. m) s).1
after_check e id s (ok _) m k keeps h = Attributed-recalled e id s (m s).1 keeps (k refl)
after_check e id s (err x) m k keeps h = cc

through-Recalls :
    (m : Exec State Unit) (r : Result Unit) (s : State)
    → Recalls s (m s).1
    → Recalls s (continue r (λ _. m) s).1
through-Recalls m (ok _) s h id a found = h id a found
through-Recalls m (err e) s h id a found = found

module _ (digest_of : UnsignedReceipt → String) (e : RuntimeEvent) (receipt : Receipt) (at : Stamp)
    (s : State) (a : AcceptedInvocation) where
  store_refused :
      (r : Result AcceptedInvocation)
      → ((b : AcceptedInvocation) → r ≢ ok b)
      → ((store_invocation receipt.invocation_id s r).0 ≢ ok tt)
        × ((store_invocation receipt.invocation_id s r).1 ≡ s)
  store_refused (ok b) k = elim (k b refl) [ ]
  store_refused (err x) k = (λ h. ground arith, refl)

  refused_again :
      JsMap.get receipt.invocation_id s.accepted_invocations ≡ some a
      → ((accept_invocation digest_of e receipt at s).0 ≢ ok tt)
        × ((accept_invocation digest_of e receipt at s).1 ≡ s)
  unfolding accept_invocation
  refused_again found =
      store_refused (check_acceptance digest_of e receipt at s)
        (λ b h. let absent = check_acceptance-new digest_of e receipt at s h in ground arith)

module _ (seals : Seals) where
  acceptance_applied :
      (e : RuntimeEvent) (s : State) (receipt : Receipt) (at : Stamp)
      → e.payload ≡ Payload.invocation_accepted receipt at
      → apply_runtime_event seals e s ≡ accept_invocation seals.receipt_digest e receipt at s
  unfolding apply_runtime_event attribution dispatch
  acceptance_applied e s receipt at p = rw p refl

  -- An event that names an invocation is applied only if that invocation is accepted, and then it
  -- is in the state after it, accepted in the event's own transaction and with the correlation of
  -- its actor; the event that accepts an invocation included.
  pub apply_runtime_event-Attributed :
      (e : RuntimeEvent) (s : State) (id : String)
      → e.actor.invocation_id ≡ some id
      → (apply_runtime_event seals e s).0 ≡ ok tt
      → Attributed e id (apply_runtime_event seals e s).1
  unfolding apply_runtime_event attribution
  apply_runtime_event-Attributed e s id by h = elim (Bool-cases (is_acceptance seals e.payload)) [
    | inl yes_ ↦
        let (receipt, at, is_receipt) = is_acceptance-eq-true seals e.payload yes_ in
        let same = acceptance_applied e s receipt at is_receipt in
        subst (λ x. Attributed e id x.1) (sym same)
          (accept_invocation-Attributed e id seals.receipt_digest receipt at s by
            (subst (λ x. x.0 ≡ ok tt) same h))
    | inr no_ ↦ rw no_ (
        after_check e id s (check_attribution e s) (dispatch seals e e.payload)
          (check_attribution-Attributed e id s by) ((dispatch-Orderly seals e e.payload).recalls s)
          (rw no_ at h))
  ]

  replay-Recalls : (es : List RuntimeEvent) (s : State) → Recalls s (replay seals es s).1
  unfolding replay
  replay-Recalls [] s id a found = found
  replay-Recalls (e ∷ es) s id a found =
      through-Recalls (replay seals es) (apply_runtime_event seals e s).0
        (apply_runtime_event seals e s).1 (replay-Recalls es (apply_runtime_event seals e s).1) id a
        ((apply_runtime_event-Orderly seals e).recalls s id a found)

  -- An invocation that is accepted stays as it was accepted over any further events, and no later
  -- event that accepts the same invocation again is applied: it is refused and changes nothing.
  pub accepted_once :
      (s : State) (log : List RuntimeEvent) (e : RuntimeEvent) (receipt : Receipt) (at : Stamp)
      (a : AcceptedInvocation)
      → JsMap.get receipt.invocation_id s.accepted_invocations ≡ some a
      → e.payload ≡ Payload.invocation_accepted receipt at
      → let s' = (replay seals log s).1 in
        (JsMap.get receipt.invocation_id s'.accepted_invocations ≡ some a)
        × ((apply_runtime_event seals e s').0 ≢ ok tt)
        × ((apply_runtime_event seals e s').1 ≡ s')
  accepted_once s log e receipt at a found p =
      let s' = (replay seals log s).1 in
      let there = replay-Recalls log s receipt.invocation_id a found in
      let refused = refused_again seals.receipt_digest e receipt at s' a there in
      let same = acceptance_applied e s' receipt at p in
      (
        there,
        subst (λ x. x.0 ≢ ok tt) (sym same) refused.0,
        subst (λ x. x.1 ≡ s') (sym same) refused.1,
      )
