-- ===== src/Domain/Delivery.antt =====
-- domain/delivery-intent.js: the verification of delivery intents and of delivery outcomes.
-- `digestObject` of the parts of an intent is SHA-256 of canonical text: the parameter `Digests`.
pub mod Create
pub mod Outcomes
use fdos_genesis.Prelude.{
  ℕ, Bool, true, false, not, ◌&&◌, ◌||◌, String, Option, none, some, leb, ◌==◌, ◌is◌,
}
use fdos_genesis.Kernel.Result.{Result, ok, err, validation, integrity, policy, guard, ◌>>=◌, ◌>>◌}
use fdos_genesis.Kernel.Text.{
  is_digest, starts_with, is_lower, is_upper, is_digit, head_and_tail, every_char, text_length, cut,
}
use fdos_genesis.Kernel.Validation.{
  required_string, anything, assert_id, is_connector_id, is_agent_id, iso_date, is_prefix_tail,
}
use fdos_genesis.Kernel.Json.{Fields}
use fdos_genesis.Kernel.EventLog.{is_role_id}
use fdos_genesis.Domain.Catalog.{Risk, a0, a1, Sensitivity, public, internal}
use fdos_genesis.Model.{
  ConnectorBinding, OperationBinding, TaskBinding, UnsignedDelivery, DeliveryIntent, Outcome,
  OutcomeType, Evidence, simulated_evidence, failed_evidence, uncertain_evidence,
}

pub record Digests : Type 0 where
  pub parameters_digest : Fields → String
  pub request_digest : ConnectorBinding → OperationBinding → TaskBinding → String → String → String
  pub intent_digest : UnsignedDelivery → String
  pub idempotency_digest : (connector_id operation_id requested_by key : String) → String

-- /^sha256:[0-9a-f]{64}$/ under `requiredString`
unfoldable pub normalized_digest : String → Result String
normalized_digest = required_string 1 71 is_digest

-- /^[A-Z][A-Z0-9_]{2,63}$/
unfoldable pub is_code : String → Bool
unfolding every_char text_length
is_code s = head_and_tail is_upper (λ n. is_upper n || is_digit n || n == b'_') 2 63 s

-- /^[a-z][a-z0-9.-]{1,79}$/ and the same of a capability
unfoldable pub is_dotted : String → Bool
unfolding every_char text_length
is_dotted s = head_and_tail is_lower (λ n. is_prefix_tail n || n == b'.') 1 119 s

unfoldable pub is_capability : String → Bool
unfolding every_char text_length
is_capability s = head_and_tail is_lower (λ n. is_prefix_tail n || n == b':' || n == b'*') 1 119 s

-- /^[0-9]+\.[0-9]+\.[0-9]+(?:-[a-z0-9.-]+)?$/: what stands before the first `-` holds none.
abbrev is_some_of : (ℕ → Bool) → String → Bool
is_some_of p s = leb 1 (text_length s) && every_char p s

abbrev is_patch : String → Option (String × String) → Bool
is_patch minor none = false
is_patch minor (some (a, b)) = is_some_of is_digit a && is_some_of is_digit b

abbrev is_core : Option (String × String) → Bool
is_core none = false
is_core (some (major, rest)) = is_some_of is_digit major && is_patch rest (cut b'.' rest)

abbrev is_suffixed : String → Option (String × String) → Bool
is_suffixed s none = is_core (cut b'.' s)
is_suffixed s (some (core, suffix)) =
    is_core (cut b'.' core) && is_some_of (λ n. is_prefix_tail n || n == b'.') suffix

unfoldable pub is_version : String → Bool
unfolding cut every_char text_length
is_version s = is_suffixed s (cut b'-' s)

unfoldable pub normalize_connector_binding : ConnectorBinding → Result ConnectorBinding
unfolding is_dotted is_version
normalize_connector_binding source = do
  guard
      (source.execution_mode is "dry_run"
        && not source.network_access
        && not source.external_effects)
      integrity
  guard (leb 1 source.max_attempts && leb source.max_attempts 3) integrity
  id ← required_string 1 160 is_connector_id source.id
  contract_id ← required_string 1 80 is_dotted source.contract_id
  contract_version ← required_string 1 80 is_version source.contract_version
  contract_digest ← normalized_digest source.contract_digest
  ok (record source {
    id = id;
    contract_id = contract_id;
    contract_version = contract_version;
    contract_digest = contract_digest;
  })

abbrev is_low : Risk → Bool
is_low a0 = true
is_low a1 = true
is_low _ = false

abbrev is_open : Sensitivity → Bool
is_open public = true
is_open internal = true
is_open _ = false

unfoldable pub normalize_operation_binding : OperationBinding → Result OperationBinding
unfolding is_dotted is_capability
normalize_operation_binding source = do
  guard (is_low source.risk_class) validation
  guard (is_open source.sensitivity) validation
  id ← required_string 1 80 is_dotted source.id
  digest ← normalized_digest source.digest
  action_type ← required_string 1 120 is_dotted source.action_type
  capability ← required_string 1 120 is_capability source.capability
  target_prefix ← required_string 1 120 anything source.target_prefix
  ok (record source {
    id = id;
    digest = digest;
    action_type = action_type;
    capability = capability;
    target_prefix = target_prefix;
  })

unfoldable pub normalize_task_binding : TaskBinding → Result TaskBinding
normalize_task_binding source = do
  guard (leb 1 source.attempt) integrity
  id ← assert_id source.id
  run_id ← assert_id source.run_id
  action_intent_digest ← normalized_digest source.action_intent_digest
  owner_role_id ← required_string 1 64 is_role_id source.owner_role_id
  ok (record source {
    id = id;
    run_id = run_id;
    action_intent_digest = action_intent_digest;
    owner_role_id = owner_role_id;
  })

abbrev pub delivery_schema_version : String
delivery_schema_version = "1.0"

abbrev pub delivery_kind : String
delivery_kind = "fdos-connector-delivery-intent"

unfoldable pub verify_delivery_intent : Digests → DeliveryIntent → Result (Unit {0})
verify_delivery_intent digests intent = do
  guard (intent.schema_version is delivery_schema_version && intent.kind is delivery_kind) integrity
  connector ← normalize_connector_binding intent.connector
  operation ← normalize_operation_binding intent.operation
  task ← normalize_task_binding intent.task
  target ← required_string 1 500 anything intent.target
  guard (starts_with target operation.target_prefix) integrity
  parameters_digest ← normalized_digest intent.parameters_digest
  guard (digests.parameters_digest intent.parameters is parameters_digest) integrity
  required_string 1 140 is_agent_id intent.requested_by
  iso_date intent.requested_at
  normalized_digest intent.idempotency_digest
  request_digest ← normalized_digest intent.request_digest
  guard (digests.request_digest connector operation task target parameters_digest is request_digest)
      integrity
  guard (digests.intent_digest intent.unsigned is intent.digest) integrity

-- `normalizeDeliveryOutcome`: evidence of another shape than its type's is refused.
unfoldable pub normalize_delivery_outcome : OutcomeType → Evidence → Result Evidence
unfolding is_code
normalize_delivery_outcome OutcomeType.simulated (simulated_evidence effect result_digest) = do
  guard (effect is "none") policy
  digest ← normalized_digest result_digest
  ok (simulated_evidence "none" digest)
normalize_delivery_outcome OutcomeType.failed
      (failed_evidence effect error_code message_digest retryable) =
    do
      guard (effect is "none") policy
      code ← required_string 1 64 is_code error_code
      digest ← normalized_digest message_digest
      ok (failed_evidence "none" code digest retryable)
normalize_delivery_outcome OutcomeType.uncertain
      (uncertain_evidence effect reason_code evidence_digest) =
    do
      guard (effect is "none") policy
      code ← required_string 1 64 is_code reason_code
      digest ← normalized_digest evidence_digest
      ok (uncertain_evidence "none" code digest)
normalize_delivery_outcome _ _ = err validation

unfoldable pub verify_delivery_outcome : Outcome → Result Outcome
verify_delivery_outcome outcome = do
  evidence ← normalize_delivery_outcome outcome.type outcome.evidence
  recorded_by ← required_string 1 160 is_connector_id outcome.recorded_by
  iso_date outcome.recorded_at
  ok (record outcome { evidence = evidence; recorded_by = recorded_by })
