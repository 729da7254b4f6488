-- ===== src/Identity/Window.antt =====
-- identity/invocation.js: what a receipt that `verifyInvocationReceipt` accepts says of its times.
use fdos_genesis.Prelude.{ℕ, ◌+◌, ◌≤◌, ◌<◌, ◌≡◌, ◌≢◌, true, ◌&&◌, String, arith, eq_iff, leb, ◌is◌}
use fdos_genesis.Kernel.Result.{FdosError, ok, integrity, guard, >>=-eq-ok, >>-eq-ok, guard-eq-ok}
use fdos_genesis.Kernel.Validation.{required_string, assert_id, iso_date}
use fdos_genesis.Kernel.EventLog.{ActorType, human, agent, connector, system}
use fdos_genesis.Domain.Delivery.{normalized_digest}
use fdos_genesis.Model.{Receipt, UnsignedReceipt}
use fdos_genesis.Identity.{
  verify_invocation_receipt, is_consistent_window, is_key_id, is_issuer_id, is_audience,
  is_organization_id, normalize_principal, normalize_operation,
}

-- The times of a receipt, in milliseconds: issued, valid from, valid until, verified.
pub record Window (issued not_before expires verified skew : ℕ) : Type 0 where
  pub ordered : (issued ≤ not_before) × (not_before < expires)
  pub short : expires ≤ issued + 600000
  pub not_early : not_before ≤ verified + skew
  pub not_late : verified < expires + skew
  pub tolerant : skew ≤ 30000

is_consistent_window-Window :
    (issued not_before expires verified skew : ℕ)
    → is_consistent_window issued not_before expires verified skew ≡ true
    → skew ≤ 30000
    → Window issued not_before expires verified skew
unfolding is_consistent_window
is_consistent_window-Window issued not_before expires verified skew h k = ground arith

not_system :
    (type : ActorType) (id : String) {out : String}
    → normalize_principal type id ≡ ok out
    → type ≢ system
unfolding normalize_principal
not_system system id h = λ e. ground arith
not_system human id h = λ e. ground arith
not_system agent id h = λ e. ground arith
not_system connector id h = λ e. ground arith

-- What is the same in every receipt.
pub record IsFixed (receipt : Receipt) : Type 0 where
  pub schema : receipt.schema_version ≡ "1.0"
  pub kind : receipt.kind ≡ "fdos-verified-invocation"
  pub method : receipt.authentication_method ≡ "ed25519"
  pub assurance : receipt.authentication_assurance ≡ "experimental-local"

both_are :
    (a b c d : String) (e : FdosError) {u : Unit {0}}
    → guard (a is b && c is d) e ≡ ok u
    → (a ≡ b) × (c ≡ d)
both_are a b c d e h = (ground (arith, eq_iff a b, h), ground (arith, eq_iff c d, h))

-- A receipt that is accepted has the digest of its other fields and the fixed schema, kind and
-- authentication, names a principal other than the system, and has four well-formed times: it was
-- issued no later than it became valid, was valid for at most ten minutes after its issue, and was
-- verified while it was valid, up to a clock skew of at most thirty seconds.
pub verify_invocation_receipt-Window :
    (digest_of : UnsignedReceipt → String) (receipt : Receipt)
    → verify_invocation_receipt digest_of receipt ≡ ok tt
    → (digest_of receipt.unsigned ≡ receipt.receipt_digest)
      × IsFixed receipt
      × (receipt.principal_type ≢ system)
      × ((issued not_before expires verified : ℕ) × (iso_date receipt.issued_at ≡ ok issued)
          × (iso_date receipt.not_before ≡ ok not_before)
          × (iso_date receipt.expires_at ≡ ok expires)
          × (iso_date receipt.verified_at ≡ ok verified)
          × Window issued not_before expires verified receipt.verification_clock_skew_ms)
unfolding verify_invocation_receipt
verify_invocation_receipt-Window digest_of receipt h =
    let ((_, g), h₁) =
      >>-eq-ok
        (guard
          (receipt.schema_version is "1.0"
            && receipt.kind is "fdos-verified-invocation"
            && digest_of receipt.unsigned is receipt.receipt_digest)
          integrity)
        _ h in
    let ((_, _), h₂) = >>-eq-ok (required_string 1 100 is_key_id receipt.key_id) _ h₁ in
    let ((_, _), h₃) = >>-eq-ok (required_string 1 71 is_issuer_id receipt.issuer_id) _ h₂ in
    let ((_, _), h₄) = >>-eq-ok (required_string 1 120 is_audience receipt.audience) _ h₃ in
    let ((_, _), h₅) =
      >>-eq-ok (required_string 1 68 is_organization_id receipt.organization_id) _ h₄ in
    let ((_, _), h₆) = >>-eq-ok (assert_id receipt.invocation_id) _ h₅ in
    let ((_, _), h₇) = >>-eq-ok (assert_id receipt.correlation_id) _ h₆ in
    let ((_, p), h₈) =
      >>-eq-ok (normalize_principal receipt.principal_type receipt.principal_id) _ h₇ in
    let ((_, _), h₉) = >>-eq-ok (normalize_operation receipt.operation) _ h₈ in
    let ((_, _), k) = >>-eq-ok (normalized_digest receipt.command_digest) _ h₉ in
    let ((_, _), k₁) = >>-eq-ok (normalized_digest receipt.envelope_digest) _ k in
    let (issued, at_issue, k₂) = >>=-eq-ok (iso_date receipt.issued_at) _ k₁ in
    let (start, at_start, k₃) = >>=-eq-ok (iso_date receipt.not_before) _ k₂ in
    let (expires, at_end, k₄) = >>=-eq-ok (iso_date receipt.expires_at) _ k₃ in
    let (verified, at_check, k₅) = >>=-eq-ok (iso_date receipt.verified_at) _ k₄ in
    let skew = receipt.verification_clock_skew_ms in
    let ((_, small), k₆) = >>-eq-ok (guard (leb skew 30000) integrity) _ k₅ in
    let ((_, window), last) =
      >>-eq-ok (guard (is_consistent_window issued start expires verified skew) integrity) _ k₆ in
    let schema : receipt.schema_version ≡ "1.0" =
      ground (arith, eq_iff receipt.schema_version "1.0", g) in
    let kind : receipt.kind ≡ "fdos-verified-invocation" =
      ground (arith, eq_iff receipt.kind "fdos-verified-invocation", g) in
    let digests : digest_of receipt.unsigned ≡ receipt.receipt_digest =
      ground (arith, eq_iff (digest_of receipt.unsigned) receipt.receipt_digest, g) in
    (
      digests,
      record {
        schema = schema;
        kind = kind;
        method =
            (both_are receipt.authentication_method "ed25519" receipt.authentication_assurance
              "experimental-local" integrity last).0;
        assurance =
            (both_are receipt.authentication_method "ed25519" receipt.authentication_assurance
              "experimental-local" integrity last).1;
      },
      not_system receipt.principal_type receipt.principal_id p,
      (
        issued,
        start,
        expires,
        verified,
        at_issue,
        at_start,
        at_end,
        at_check,
        is_consistent_window-Window issued start expires verified skew
            (guard-eq-ok _ integrity window) (ground arith),
      ),
    )
