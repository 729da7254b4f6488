-- ===== src/Domain/Delivery/Create.antt =====
-- domain/delivery-intent.js: the creation of a delivery intent for a task and a resolved connector.
use fdos_genesis.Prelude.{ℕ, Bool, true, false, not, ◌&&◌, String, ◌is◌}
use fdos_genesis.Kernel.Result.{Result, ok, policy, guard, ◌>>=◌, ◌>>◌}
use fdos_genesis.Kernel.Text.{starts_with}
use fdos_genesis.Kernel.Validation.{
  required_string, anything, assert_id, is_agent_id, Stamp, iso, iso_date,
}
use fdos_genesis.Kernel.Json.{Fields}
use fdos_genesis.Domain.Catalog.{
  Catalog, a2, risk_at_least, same_risk, Sensitivity, public, internal, confidential, restricted,
}
use fdos_genesis.Domain.Intent.{UnsignedIntent, ActionIntent, verify_action_intent}
use fdos_genesis.Domain.Delivery.{Digests, delivery_schema_version, delivery_kind}
use fdos_genesis.Model.{
  Task, ConnectorBinding, OperationBinding, TaskBinding, UnsignedDelivery, DeliveryIntent,
}

-- What the registry resolves: the instance's id, and the fields of its contract and of the
-- operation that the intent binds.
pub record ResolvedConnector : Type 0 where
  pub instance_id : String
  pub contract_id : String
  pub contract_version : String
  pub contract_digest : String
  pub execution_mode : String
  pub network_access : Bool
  pub external_effects : Bool
  pub max_attempts : ℕ
  pub operation : OperationBinding

abbrev pub same_sensitivity : Sensitivity → Sensitivity → Bool
same_sensitivity public public = true
same_sensitivity internal internal = true
same_sensitivity confidential confidential = true
same_sensitivity restricted restricted = true
same_sensitivity _ _ = false

abbrev pub matches_operation : ActionIntent → OperationBinding → Bool
matches_operation intent operation =
    intent.action_type is operation.action_type
    && intent.capability is operation.capability
    && same_risk intent.risk_class operation.risk_class
    && same_sensitivity intent.sensitivity operation.sensitivity
    && starts_with intent.target operation.target_prefix

abbrev pub is_dry_run : ResolvedConnector → Bool
is_dry_run c = c.execution_mode is "dry_run" && not c.network_access && not c.external_effects

abbrev pub connector_of : ResolvedConnector → ConnectorBinding
connector_of c = record {
  id = c.instance_id;
  contract_id = c.contract_id;
  contract_version = c.contract_version;
  contract_digest = c.contract_digest;
  execution_mode = c.execution_mode;
  network_access = c.network_access;
  external_effects = c.external_effects;
  max_attempts = c.max_attempts;
}

-- The binding of a task whose identifiers have passed `assertId`.
abbrev pub binding_of : Task → (id run_id : String) → TaskBinding
binding_of task id run_id = record {
  id = id;
  run_id = run_id;
  attempt = task.attempt;
  action_intent_digest = task.action_intent.digest;
  owner_role_id = task.owner_role_id;
}

module _ (digests : Digests) (digest_of : UnsignedIntent → String) (catalog : Catalog) where
  abbrev pub unsigned_delivery :
      ResolvedConnector
      → Task
      → TaskBinding
      → Fields
      → (requested_by : String) → Stamp
      → (key : String) → UnsignedDelivery
  unsigned_delivery c task binding parameters requested_by requested_at key = record {
    schema_version = delivery_schema_version;
    kind = delivery_kind;
    connector = connector_of c;
    operation = c.operation;
    task = binding;
    target = task.action_intent.target;
    parameters = parameters;
    parameters_digest = digests.parameters_digest parameters;
    requested_by = requested_by;
    requested_at = requested_at;
    idempotency_digest = digests.idempotency_digest c.instance_id c.operation.id requested_by key;
    request_digest =
        digests.request_digest (connector_of c) c.operation binding task.action_intent.target
          (digests.parameters_digest parameters);
  }

  unfoldable pub create_delivery_intent :
      ResolvedConnector
      → Task
      → Fields
      → (requested_by : String) → Stamp
      → (idempotency_key : String) → Result DeliveryIntent
  create_delivery_intent c task parameters requested_by requested_at idempotency_key = do
    verify_action_intent digest_of task.action_intent catalog
    guard (is_dry_run c) policy
    guard (matches_operation task.action_intent c.operation) policy
    guard (not (risk_at_least task.action_intent.risk_class a2)) policy
    requester ← required_string 1 140 is_agent_id requested_by
    requested ← iso_date requested_at
    key ← required_string 1 200 anything idempotency_key
    id ← assert_id task.id
    run_id ← assert_id task.run_id
    let unsigned : UnsignedDelivery =
        unsigned_delivery c task (binding_of task id run_id) parameters requester (iso requested)
          key
    ok (record { unsigned = unsigned; digest = digests.intent_digest unsigned })
