-- ===== src/Reducer/Invocations.antt =====
-- runtime/state.js: the acceptance of invocations, the record of a failed one, and the check of an
-- event that is attributed to an invocation.
use fdos_genesis.Prelude.{
  ◌+◌, Bool, true, false, not, ◌&&◌, String, Option, none, some, ltb, ◌is◌, same_option,
}
use fdos_genesis.Kernel.Result.{Result, ok, err, integrity, guard, or_throw, ◌>>=◌, ◌>>◌}
use fdos_genesis.Kernel.Exec.{Exec}
use fdos_genesis.Kernel.Text.{is_upper, is_alnum, head_and_tail, every_char, text_length}
use fdos_genesis.Kernel.Validation.{required_string, assert_id, Stamp, iso_date, same_stamp}
use fdos_genesis.Kernel.JsMap
use fdos_genesis.Kernel.EventLog.{ActorType, human, agent, connector, system}
use fdos_genesis.Identity.{verify_invocation_receipt}
use fdos_genesis.Domain.Delivery.{normalized_digest, is_code}
use fdos_genesis.Model.{State, Receipt, UnsignedReceipt, AcceptedInvocation}
use fdos_genesis.Reducer.Payload.{InvocationFailure, RuntimeEvent}

abbrev pub same_type : ActorType → ActorType → Bool
same_type human human = true
same_type agent agent = true
same_type connector connector = true
same_type system system = true
same_type _ _ = false

-- The checks of an acceptance, and what is then stored.
unfoldable pub check_acceptance :
    (UnsignedReceipt → String)
    → RuntimeEvent
    → Receipt
    → (accepted_at : Stamp) → State
    → Result AcceptedInvocation
check_acceptance digest_of event receipt accepted_at s = do
  verify_invocation_receipt digest_of receipt
  guard (not (JsMap.has receipt.invocation_id s.accepted_invocations)) integrity
  guard
      (same_type event.actor.type receipt.principal_type
        && event.actor.id is receipt.principal_id
        && same_option event.actor.invocation_id (some receipt.invocation_id)
        && same_option event.actor.correlation_id (some receipt.correlation_id))
      integrity
  accepted ← iso_date accepted_at
  timestamp ← iso_date event.timestamp
  guard
      (same_stamp accepted_at receipt.verified_at
        && not (ltb (timestamp + receipt.verification_clock_skew_ms) accepted))
      integrity
  ok (record {
    receipt = receipt;
    accepted_at = accepted_at;
    transaction_id = event.transaction_id;
  })

abbrev pub store_invocation : String → State → Result AcceptedInvocation → Result (Unit {0}) × State
store_invocation id s (ok a) =
    (ok tt, record s { accepted_invocations = JsMap.set id a s.accepted_invocations })
store_invocation id s (err e) = (err e, s)

unfoldable pub accept_invocation :
    (UnsignedReceipt → String) → RuntimeEvent → Receipt → Stamp → Exec State (Unit {0})
accept_invocation digest_of event receipt accepted_at s =
    store_invocation receipt.invocation_id s
      (check_acceptance digest_of event receipt accepted_at s)

-- /^[A-Z][a-zA-Z0-9]{2,79}$/
unfoldable pub is_error_type : String → Bool
unfolding every_char text_length
is_error_type s = head_and_tail is_upper is_alnum 2 79 s

unfoldable pub check_failure : RuntimeEvent → InvocationFailure → State → Result (Unit {0})
check_failure event failure s = do
  id ← assert_id failure.invocation_id
  accepted ← or_throw (JsMap.get id s.accepted_invocations) integrity
  guard
      (same_option (some id) event.actor.invocation_id
        && failure.operation is accepted.operation
        && failure.command_digest is accepted.command_digest)
      integrity
  required_string 1 64 is_code failure.error_code
  required_string 1 80 is_error_type failure.error_type
  normalized_digest failure.message_digest
  iso_date failure.failed_at
  ok tt

-- An event with an invocation needs that invocation accepted, with the same transaction and
-- correlation.
abbrev pub attributed : RuntimeEvent → State → Option String → Result (Unit {0})
attributed event s none = ok tt
attributed event s (some id) = do
  accepted ← or_throw (JsMap.get id s.accepted_invocations) integrity
  guard
      (same_option accepted.transaction_id event.transaction_id
        && same_option (some accepted.correlation_id) event.actor.correlation_id)
      integrity

unfoldable pub check_attribution : RuntimeEvent → State → Result (Unit {0})
check_attribution event s = attributed event s event.actor.invocation_id
