-- ===== src/Domain/Delivery/Outcomes.antt =====
-- domain/delivery-intent.js: a verified outcome is in normal form.
use fdos_genesis.Prelude.{◌≡◌, refl, subst, String, arith, ◌is◌}
use fdos_genesis.Kernel.Result.{ok, policy, guard, >>=-eq-ok, >>-eq-ok}
use fdos_genesis.Kernel.Text.{is_digest}
use fdos_genesis.Kernel.Validation.{
  required_string, required_string_idem, is_connector_id, iso_date,
}
use fdos_genesis.Domain.Delivery.{
  normalized_digest, is_code, normalize_delivery_outcome, verify_delivery_outcome,
}
use fdos_genesis.Model.{
  Outcome, OutcomeType, Evidence, simulated_evidence, failed_evidence, uncertain_evidence,
}

normalized_digest_idem :
    (s : String) {t : String} → normalized_digest s ≡ ok t → normalized_digest t ≡ ok t
unfolding normalized_digest
normalized_digest_idem s h = required_string_idem 1 71 is_digest s h

normalize_delivery_outcome_idem :
    (type : OutcomeType) (raw : Evidence) {evidence : Evidence}
    → normalize_delivery_outcome type raw ≡ ok evidence
    → normalize_delivery_outcome type evidence ≡ ok evidence
unfolding normalize_delivery_outcome
normalize_delivery_outcome_idem OutcomeType.simulated (simulated_evidence effect digest) {evidence}
      h =
    let ((_, _), h₁) = >>-eq-ok (guard (effect is "none") policy) _ h in
    let (d, at_d, h₂) = >>=-eq-ok (normalized_digest digest) _ h₁ in
    let same : simulated_evidence "none" d ≡ evidence = ground arith in
    subst (λ x. normalize_delivery_outcome OutcomeType.simulated x ≡ ok x) same
      (rw (normalized_digest_idem digest at_d) refl)
normalize_delivery_outcome_idem OutcomeType.failed (failed_evidence effect code digest retryable)
      {evidence} h =
    let ((_, _), h₁) = >>-eq-ok (guard (effect is "none") policy) _ h in
    let (c, at_c, h₂) = >>=-eq-ok (required_string 1 64 is_code code) _ h₁ in
    let (d, at_d, h₃) = >>=-eq-ok (normalized_digest digest) _ h₂ in
    let same : failed_evidence "none" c d retryable ≡ evidence = ground arith in
    subst (λ x. normalize_delivery_outcome OutcomeType.failed x ≡ ok x) same
      (rw (required_string_idem 1 64 is_code code at_c, normalized_digest_idem digest at_d) refl)
normalize_delivery_outcome_idem OutcomeType.uncertain (uncertain_evidence effect code digest)
      {evidence} h =
    let ((_, _), h₁) = >>-eq-ok (guard (effect is "none") policy) _ h in
    let (c, at_c, h₂) = >>=-eq-ok (required_string 1 64 is_code code) _ h₁ in
    let (d, at_d, h₃) = >>=-eq-ok (normalized_digest digest) _ h₂ in
    let same : uncertain_evidence "none" c d ≡ evidence = ground arith in
    subst (λ x. normalize_delivery_outcome OutcomeType.uncertain x ≡ ok x) same
      (rw (required_string_idem 1 64 is_code code at_c, normalized_digest_idem digest at_d) refl)
normalize_delivery_outcome_idem _ _ h = cc

-- An outcome that `verifyDeliveryOutcome` returns passes it again, unchanged.
pub verify_delivery_outcome_idem :
    (raw : Outcome) {outcome : Outcome}
    → verify_delivery_outcome raw ≡ ok outcome
    → verify_delivery_outcome outcome ≡ ok outcome
unfolding verify_delivery_outcome
verify_delivery_outcome_idem raw {outcome} h =
    let (e, at_e, h₁) = >>=-eq-ok (normalize_delivery_outcome raw.type raw.evidence) _ h in
    let (by, at_by, h₂) = >>=-eq-ok (required_string 1 160 is_connector_id raw.recorded_by) _ h₁ in
    let ((n, at_n), h₃) = >>-eq-ok (iso_date raw.recorded_at) _ h₂ in
    let same : (record raw { evidence = e; recorded_by = by }) ≡ outcome = ground arith in
    subst (λ x. verify_delivery_outcome x ≡ ok x) same
      (rw
        (
          normalize_delivery_outcome_idem raw.type raw.evidence at_e,
          required_string_idem 1 160 is_connector_id raw.recorded_by at_by,
          at_n,
        )
        refl)
