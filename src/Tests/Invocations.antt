-- ===== src/Tests/Invocations.antt =====
-- An invocation that is accepted, and the events that name it.
use fdos_genesis.Prelude.{◌≡◌, ◌≢◌, refl, ℕ, some, [], ◌∷◌}
use fdos_genesis.Kernel.Result.{ok}
use fdos_genesis.Kernel.JsMap
use fdos_genesis.Kernel.Text.{
  text_length, trim_start, trim_end, trim, starts_with, skip, every_char, is_digest, cut,
}
use fdos_genesis.Kernel.Validation.{
  iso, iso_date, required_string, is_id, is_connector_id, assert_id,
}
use fdos_genesis.Kernel.EventLog.{ActorType}
use fdos_genesis.Domain.Delivery.{normalized_digest}
use fdos_genesis.Identity.{
  verify_invocation_receipt, is_key_id, is_issuer_id, is_audience, is_organization_id, is_human_id,
  is_operation, normalize_operation, normalize_principal, is_consistent_window,
}
use fdos_genesis.Identity.Window.{IsFixed, Window, verify_invocation_receipt-Window}
use fdos_genesis.Reducer.Invocations.{check_acceptance, accept_invocation}
use fdos_genesis.Reducer.Apply.{apply_runtime_event, attribution, dispatch, replay}
use fdos_genesis.Reducer.Apply.Attribution.{Attributed}
use fdos_genesis.Reducer.Apply.SingleUse.{apply_runtime_event-Attributed, accepted_once}
use fdos_genesis.Tests.Samples.{
  seals, a_digest, receipt, invocation_id, accept_event, outcome_event, start, claimed_state,
  accepted,
}

receipt_accepted : verify_invocation_receipt (λ r. a_digest) receipt ≡ ok tt
unfolding verify_invocation_receipt is_key_id is_issuer_id is_audience is_organization_id
    is_human_id is_operation normalize_operation normalize_principal is_consistent_window
    normalized_digest is_connector_id is_digest required_string assert_id is_id trim trim_start
    trim_end skip starts_with cut text_length every_char
receipt_accepted = refl

verify_invocation_receipt-Window_example :
    (a_digest ≡ receipt.receipt_digest)
    × IsFixed receipt
    × (receipt.principal_type ≢ ActorType.system)
    × ((issued not_before expires verified : ℕ) × (iso_date receipt.issued_at ≡ ok issued)
        × (iso_date receipt.not_before ≡ ok not_before)
        × (iso_date receipt.expires_at ≡ ok expires)
        × (iso_date receipt.verified_at ≡ ok verified)
        × Window issued not_before expires verified receipt.verification_clock_skew_ms)
verify_invocation_receipt-Window_example =
    verify_invocation_receipt-Window (λ r. a_digest) receipt receipt_accepted

accept_event_applied : (apply_runtime_event seals accept_event start).0 ≡ ok tt
unfolding apply_runtime_event attribution dispatch accept_invocation check_acceptance
    verify_invocation_receipt is_key_id is_issuer_id is_audience is_organization_id is_human_id
    is_operation normalize_operation normalize_principal is_consistent_window normalized_digest
    is_connector_id is_digest required_string assert_id is_id trim trim_start trim_end skip
    starts_with cut text_length every_char JsMap.get JsMap.set
accept_event_applied = refl

apply_runtime_event-Attributed_example :
    Attributed accept_event invocation_id (apply_runtime_event seals accept_event start).1
apply_runtime_event-Attributed_example =
    apply_runtime_event-Attributed seals accept_event start invocation_id refl accept_event_applied

accepted_once_example :
    let s = (replay seals (outcome_event ∷ []) claimed_state).1 in
    (JsMap.get invocation_id s.accepted_invocations ≡ some accepted)
    × ((apply_runtime_event seals accept_event s).0 ≢ ok tt)
    × ((apply_runtime_event seals accept_event s).1 ≡ s)
unfolding JsMap.get
accepted_once_example =
    accepted_once seals claimed_state (outcome_event ∷ []) accept_event receipt (iso 45) accepted
      refl refl
