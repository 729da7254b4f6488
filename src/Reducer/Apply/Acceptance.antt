-- ===== src/Reducer/Apply/Acceptance.antt =====
-- What the acceptance of an invocation does: it adds an invocation that was not there.
use fdos_genesis.Prelude.{◌≡◌, refl, not, String, none, arith, eq_iff}
use fdos_genesis.Kernel.Result.{Result, ok, err, integrity, guard, >>-eq-ok}
use fdos_genesis.Kernel.JsMap.{JsMap, AllValues, AllValues-get, AllValues-set, get-set}
use fdos_genesis.Kernel.JsMap
use fdos_genesis.Model.{State, AcceptedInvocation, Receipt, UnsignedReceipt}
use fdos_genesis.Identity.{verify_invocation_receipt}
use fdos_genesis.Reducer.Invocations.{check_acceptance, store_invocation, accept_invocation}
use fdos_genesis.Kernel.Validation.{Stamp}
use fdos_genesis.Reducer.Payload.{RuntimeEvent}
use fdos_genesis.Reducer.Apply.Frames.{accept_invocation-Leaves}
use fdos_genesis.Reducer.Apply.Outbox.{Orderly, Recalls, outbox-Orderly}

module _ (digest_of : UnsignedReceipt → String) (e : RuntimeEvent) (receipt : Receipt)
    (at : Stamp) where
  pub check_acceptance-new :
      (s : State) {a : AcceptedInvocation}
      → check_acceptance digest_of e receipt at s ≡ ok a
      → (JsMap.get receipt.invocation_id s.accepted_invocations ≡ none)
  unfolding check_acceptance
  check_acceptance-new s h =
      let ((_, _), h₁) = >>-eq-ok (verify_invocation_receipt digest_of receipt) _ h in
      let ((_, g), _) =
        >>-eq-ok (guard (not (JsMap.has receipt.invocation_id s.accepted_invocations)) integrity) _
          h₁ in
      ground arith

  store_invocation-Recalls :
      (s : State) (r : Result AcceptedInvocation)
      → ((a : AcceptedInvocation)
          → r ≡ ok a
          → JsMap.get receipt.invocation_id s.accepted_invocations ≡ none)
      → Recalls s (store_invocation receipt.invocation_id s r).1
  store_invocation-Recalls s (err x) free id a found = found
  store_invocation-Recalls s (ok b) free id a found =
      let absent = free b refl in
      ground (
        arith,
        get-set receipt.invocation_id id b s.accepted_invocations,
        eq_iff receipt.invocation_id id,
      )

  accept_invocation-Recalls : (s : State) → Recalls s (accept_invocation digest_of e receipt at s).1
  unfolding accept_invocation
  accept_invocation-Recalls s =
      store_invocation-Recalls s (check_acceptance digest_of e receipt at s)
        (λ a h. check_acceptance-new s h)

  pub accept_invocation-Orderly : Orderly e.actor (accept_invocation digest_of e receipt at)
  accept_invocation-Orderly =
      outbox-Orderly e.actor _ (accept_invocation-Leaves digest_of e receipt at)
        accept_invocation-Recalls
