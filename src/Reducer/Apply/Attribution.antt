-- ===== src/Reducer/Apply/Attribution.antt =====
-- runtime/state.js: what an accepted event shows of the invocation that it is attributed to.
use fdos_genesis.Prelude.{
  ◌≡◌, refl, not, ◌&&◌, String, some, arith, eq_iff, ◌is◌, same_option, same_option_iff,
}
use fdos_genesis.Kernel.Result.{
  Result, ok, err, integrity, guard, or_throw, >>=-eq-ok, >>-eq-ok, or_throw-eq-ok,
}
use fdos_genesis.Kernel.Validation.{Stamp, iso_date}
use fdos_genesis.Kernel.JsMap.{JsMap, get-set}
use fdos_genesis.Kernel.JsMap
use fdos_genesis.Identity.{verify_invocation_receipt}
use fdos_genesis.Model.{State, AcceptedInvocation, Receipt, UnsignedReceipt}
use fdos_genesis.Reducer.Payload.{RuntimeEvent}
use fdos_genesis.Reducer.Invocations.{
  same_type, check_acceptance, store_invocation, accept_invocation, attributed, check_attribution,
}

-- The invocation of an event, accepted in the same transaction and with the same correlation.
pub record Attributed (e : RuntimeEvent) (id : String) (s : State) : Type 0 where
  pub accepted : AcceptedInvocation
  pub found : JsMap.get id s.accepted_invocations ≡ some accepted
  pub same_transaction : accepted.transaction_id ≡ e.transaction_id
  pub same_correlation : some accepted.correlation_id ≡ e.actor.correlation_id

module _ (e : RuntimeEvent) (id : String) where
  pub check_attribution-Attributed :
      (s : State)
      → e.actor.invocation_id ≡ some id
      → check_attribution e s ≡ ok tt
      → Attributed e id s
  unfolding check_attribution
  check_attribution-Attributed s by h =
      let h₁ : attributed e s (some id) ≡ ok tt = rw by at h in
      let (accepted, at_accepted, h₂) =
        >>=-eq-ok (or_throw (JsMap.get id s.accepted_invocations) integrity) _ h₁ in
      record {
        accepted = accepted;
        found = or_throw-eq-ok (JsMap.get id s.accepted_invocations) integrity at_accepted;
        same_transaction = ground (arith, same_option_iff accepted.transaction_id e.transaction_id);
        same_correlation =
            ground (arith, same_option_iff (some accepted.correlation_id) e.actor.correlation_id);
      }

  module _ (digest_of : UnsignedReceipt → String) (receipt : Receipt) (at : Stamp) where
    check_acceptance-Attributed :
        (s : State) {a : AcceptedInvocation}
        → e.actor.invocation_id ≡ some id
        → check_acceptance digest_of e receipt at s ≡ ok a
        → (receipt.invocation_id ≡ id)
          × (a.transaction_id ≡ e.transaction_id)
          × (some a.correlation_id ≡ e.actor.correlation_id)
    unfolding check_acceptance
    check_acceptance-Attributed s {a} by h =
        let ((_, _), h₁) = >>-eq-ok (verify_invocation_receipt digest_of receipt) _ h in
        let ((_, _), h₂) =
          >>-eq-ok (guard (not (JsMap.has receipt.invocation_id s.accepted_invocations)) integrity)
            _ h₁ in
        let ((_, g), h₃) =
          >>-eq-ok
            (guard
              (same_type e.actor.type receipt.principal_type
                && e.actor.id is receipt.principal_id
                && same_option e.actor.invocation_id (some receipt.invocation_id)
                && same_option e.actor.correlation_id (some receipt.correlation_id))
              integrity)
            _ h₂ in
        let named : e.actor.invocation_id ≡ some receipt.invocation_id =
          ground (arith, same_option_iff e.actor.invocation_id (some receipt.invocation_id)) in
        let correlated : e.actor.correlation_id ≡ some receipt.correlation_id =
          ground (arith, same_option_iff e.actor.correlation_id (some receipt.correlation_id)) in
        let (_, _, h₄) = >>=-eq-ok (iso_date at) _ h₃ in
        let (timestamp, _, h₅) = >>=-eq-ok (iso_date e.timestamp) _ h₄ in
        (ground arith, ground arith, ground arith)

    stored_Attributed :
        (s : State) (r : Result AcceptedInvocation)
        → ((a : AcceptedInvocation)
            → r ≡ ok a
            → (receipt.invocation_id ≡ id)
              × (a.transaction_id ≡ e.transaction_id)
              × (some a.correlation_id ≡ e.actor.correlation_id))
        → (store_invocation receipt.invocation_id s r).0 ≡ ok tt
        → Attributed e id (store_invocation receipt.invocation_id s r).1
    stored_Attributed s (err x) k h = cc
    stored_Attributed s (ok a) k h =
        let (named, in_transaction, correlated) = k a refl in
        record {
          accepted = a;
          found = ground (
            arith,
            get-set receipt.invocation_id id a s.accepted_invocations,
            eq_iff receipt.invocation_id id,
          );
          same_transaction = in_transaction;
          same_correlation = correlated;
        }

    pub accept_invocation-Attributed :
        (s : State)
        → e.actor.invocation_id ≡ some id
        → (accept_invocation digest_of e receipt at s).0 ≡ ok tt
        → Attributed e id (accept_invocation digest_of e receipt at s).1
    unfolding accept_invocation
    accept_invocation-Attributed s by =
        stored_Attributed s (check_acceptance digest_of e receipt at s)
          (λ a. check_acceptance-Attributed s by)
