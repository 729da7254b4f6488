-- ===== src/Domain/Intent.antt =====
-- domain/action-intent.js: action intents and their verification. The digest of an intent without
-- its `digest` field is SHA-256 of its canonical text: a parameter.
pub mod RoundTrip
use fdos_genesis.Prelude.{
  ℕ, ◌≤◌, ◌<◌, ◌≡◌, refl, sym, Bool, true, false, not, String, Option, none, some, arith, eq_iff,
  is_refl, ltb, leb, ◌is◌, if◌then◌else◌,
}
use fdos_genesis.Kernel.Result.{
  Result, ok, err, policy, integrity, guard, ◌>>=◌, ◌>>◌, >>=-eq-ok, >>-eq-ok,
}
use fdos_genesis.Kernel.Text.{is_digest}
use fdos_genesis.Kernel.Validation.{required_string, required_string_idem, anything}
use fdos_genesis.Domain.Catalog.{
  Risk, a0, a1, a2, a3, a4, Sensitivity, public, internal, confidential, restricted, risk_below,
  risk_rank, Catalog, ActionDefinition,
}
use fdos_genesis.Domain.Catalog

pub data ExecutionMode : Type 0 where
  role_authorized human_approval blocked : ExecutionMode

pub record UnsignedIntent : Type 0 where
  pub schema_version : String
  pub action_type : String
  pub capability : String
  pub target : String
  pub parameters_digest : String
  pub risk_class : Risk
  pub sensitivity : Sensitivity
  pub execution_mode : ExecutionMode

pub record ActionIntent : Type 0 where
  pub unsigned : UnsignedIntent
  pub open unsigned use *
  pub digest : String

abbrev pub intent_version : String
intent_version = "1.0"

unfoldable pub execution_mode_for : Risk → ExecutionMode
execution_mode_for a0 = role_authorized
execution_mode_for a1 = role_authorized
execution_mode_for a2 = human_approval
execution_mode_for a3 = blocked
execution_mode_for a4 = blocked

abbrev pub is_restricted : Sensitivity → Bool
is_restricted restricted = true
is_restricted _ = false

abbrev pub same_mode : ExecutionMode → ExecutionMode → Bool
same_mode role_authorized role_authorized = true
same_mode human_approval human_approval = true
same_mode blocked blocked = true
same_mode _ _ = false

abbrev pub declared_or : Option Risk → Risk → Risk
declared_or none minimum = minimum
declared_or (some r) minimum = r

module _ (digest_of : UnsignedIntent → String) where
  -- `parameters_digest` is `digestObject(parameters)`.
  unfoldable pub create_action_intent :
      Catalog → String → String → String → Option Risk → Sensitivity → Result ActionIntent
  create_action_intent catalog action_type target parameters_digest declared sensitivity = do
    definition ← Catalog.get catalog action_type
    let risk = declared_or declared definition.minimum_risk_class
    guard (not (risk_below risk definition.minimum_risk_class)) policy
    guard (not (is_restricted sensitivity)) policy
    normalized_target ← required_string 1 500 anything target
    let unsigned : UnsignedIntent = record {
      schema_version = intent_version;
      action_type = definition.type;
      capability = definition.capability;
      target = normalized_target;
      parameters_digest = parameters_digest;
      risk_class = risk;
      sensitivity = sensitivity;
      execution_mode = execution_mode_for risk;
    }
    ok (record { unsigned = unsigned; digest = digest_of unsigned })

  unfoldable pub verify_action_intent : ActionIntent → Catalog → Result (Unit {0})
  verify_action_intent intent catalog = do
    guard (intent.schema_version is intent_version) integrity
    definition ← Catalog.get catalog intent.action_type
    guard (intent.capability is definition.capability) integrity
    guard (not (risk_below intent.risk_class definition.minimum_risk_class)) integrity
    guard (not (is_restricted intent.sensitivity)) policy
    guard (same_mode intent.execution_mode (execution_mode_for intent.risk_class)) integrity
    required_string 1 500 anything intent.target
    required_string 1 80 is_digest intent.parameters_digest
    guard (intent.digest is digest_of intent.unsigned) integrity
