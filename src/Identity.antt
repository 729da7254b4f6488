-- ===== src/Identity.antt =====
-- identity/invocation.js: the verification of an invocation receipt that is read back from the
-- log, and the shapes of its identifiers. The digest of a receipt without its `receiptDigest` is
-- SHA-256 of canonical text: a parameter.
pub mod Window
use fdos_genesis.Prelude.{
  ℕ, ◌+◌, ◌-◌, ◌≤◌, Bool, true, false, not, ◌&&◌, ◌||◌, String, List, [], ◌∷◌, leb, ltb, ◌==◌, ◌is◌,
  contains, if◌then◌else◌,
}
use fdos_genesis.Kernel.Result.{Result, ok, err, validation, integrity, guard, ◌>>=◌, ◌>>◌}
use fdos_genesis.Kernel.Text.{
  is_digest, starts_with, skip, is_lower, is_digit, is_alnum, head_and_tail, every_char,
  text_length,
}
use fdos_genesis.Kernel.Validation.{
  required_string, assert_id, is_agent_id, is_connector_id, iso_date, is_prefix_tail,
}
use fdos_genesis.Kernel.EventLog.{ActorType, human, agent, connector, system}
use fdos_genesis.Domain.Delivery.{normalized_digest}
use fdos_genesis.Model.{Receipt, UnsignedReceipt}

abbrev is_name_tail : ℕ → Bool
is_name_tail n = is_lower n || is_digit n || n == b'.' || n == b'_' || n == b'-'

unfoldable pub is_organization_id : String → Bool
unfolding starts_with skip every_char text_length
is_organization_id s = starts_with s "org:" && head_and_tail is_lower is_name_tail 1 63 (skip 4 s)

unfoldable pub is_issuer_id : String → Bool
unfolding starts_with skip every_char text_length
is_issuer_id s = starts_with s "issuer:" && head_and_tail is_lower is_name_tail 1 63 (skip 7 s)

unfoldable pub is_key_id : String → Bool
unfolding starts_with skip every_char text_length
is_key_id s =
    starts_with s "key:"
    && head_and_tail (λ n. is_lower n || is_digit n) is_name_tail 1 95 (skip 4 s)

unfoldable pub is_human_id : String → Bool
unfolding starts_with skip every_char text_length
is_human_id s =
    starts_with s "human:"
    && head_and_tail is_alnum (λ n. is_alnum n || n == b'.' || n == b'_' || n == b'-') 1 95
        (skip 6 s)

unfoldable pub is_audience : String → Bool
unfolding every_char text_length
is_audience s = head_and_tail is_lower is_name_tail 1 119 s

-- The keys of `commandPayloadSchemas`.
abbrev pub invocation_operations : List String
invocation_operations =
    "agent.profile" ∷ "workflow.start" ∷ "workflow.view" ∷ "task.list-ready" ∷ "task.get"
    ∷ "task.context" ∷ "task.claim" ∷ "task.complete" ∷ "task.fail" ∷ "task.retry" ∷ "task.cancel"
    ∷ "task.handoff" ∷ "approval.request" ∷ "approval.decide" ∷ "approval.list" ∷ "memory.propose"
    ∷ "memory.review" ∷ "memory.read" ∷ "memory.list-candidates" ∷ "outbox.prepare" ∷ "outbox.get"
    ∷ "outbox.list" ∷ "outbox.claim" ∷ "outbox.record-outcome" ∷ "outbox.record-worker-outcome"
    ∷ "outbox.reconcile-expired" ∷ "outbox.retry" ∷ "outbox.cancel" ∷ "outbox.resolve-uncertain"
    ∷ "audit.read" ∷ "evidence.export" ∷ []

-- /^[a-z][a-z0-9.-]{1,79}$/
unfoldable pub is_operation : String → Bool
unfolding every_char text_length
is_operation s = head_and_tail is_lower (λ n. is_prefix_tail n || n == b'.') 1 79 s

unfoldable pub normalize_operation : String → Result String
normalize_operation value = do
  operation ← required_string 1 80 is_operation value
  guard (contains operation invocation_operations) validation
  ok operation

-- A principal is a human, an agent or a connector.
unfoldable pub normalize_principal : ActorType → String → Result String
normalize_principal human id = required_string 1 160 is_human_id id
normalize_principal agent id = required_string 1 160 is_agent_id id
normalize_principal connector id = required_string 1 160 is_connector_id id
normalize_principal system id = err validation

-- The window of times, with `a < b - skew` written as `a + skew < b`.
unfoldable pub is_consistent_window : ℕ → ℕ → ℕ → ℕ → ℕ → Bool
is_consistent_window issued not_before expires verified skew = not (
    ltb not_before issued
    || leb expires not_before
    || ltb (issued + 600000) expires
    || ltb (verified + skew) issued
    || ltb (verified + skew) not_before
    || leb (expires + skew) verified)

unfoldable pub verify_invocation_receipt : (UnsignedReceipt → String) → Receipt → Result (Unit {0})
verify_invocation_receipt digest_of receipt = do
  guard
      (receipt.schema_version is "1.0"
        && receipt.kind is "fdos-verified-invocation"
        && digest_of receipt.unsigned is receipt.receipt_digest)
      integrity
  required_string 1 100 is_key_id receipt.key_id
  required_string 1 71 is_issuer_id receipt.issuer_id
  required_string 1 120 is_audience receipt.audience
  required_string 1 68 is_organization_id receipt.organization_id
  assert_id receipt.invocation_id
  assert_id receipt.correlation_id
  normalize_principal receipt.principal_type receipt.principal_id
  normalize_operation receipt.operation
  normalized_digest receipt.command_digest
  normalized_digest receipt.envelope_digest
  issued ← iso_date receipt.issued_at
  not_before ← iso_date receipt.not_before
  expires ← iso_date receipt.expires_at
  verified ← iso_date receipt.verified_at
  guard (leb receipt.verification_clock_skew_ms 30000) integrity
  guard (is_consistent_window issued not_before expires verified receipt.verification_clock_skew_ms)
      integrity
  guard
      (receipt.authentication_method is "ed25519"
        && receipt.authentication_assurance is "experimental-local")
      integrity
