-- ===== src/Tests/Connectors.antt =====
-- A registry with one contract of one operation, and one instance of it.
use fdos_genesis.Prelude.{◌≡◌, refl, true, false, [], ◌∷◌}
use fdos_genesis.Kernel.Result.{ok, err, policy}
use fdos_genesis.Kernel.Text.{
  text_length, trim_start, trim_end, trim, starts_with, skip, every_char, cut,
}
use fdos_genesis.Kernel.Validation.{required_string, is_connector_id}
use fdos_genesis.Kernel.JsMap
use fdos_genesis.Kernel.EventLog.{is_event_type}
use fdos_genesis.Domain.Catalog.{Risk, Sensitivity, default_actions}
use fdos_genesis.Domain.Catalog
use fdos_genesis.Domain.Delivery.{is_version}
use fdos_genesis.Domain.Agents.{InstanceStatus}
use fdos_genesis.Domain.Connectors.{
  FieldType, OperationSource, Operation, is_dotted_id, is_field_name, is_sensitive_name, mentions,
  begins, is_target_prefix, normalize_operation, normalize_operations, normalize_fields,
  normalize_parameter_field,
}
use fdos_genesis.Domain.Connectors.Registry.{
  ContractSource, Contract, ConnectorDigests, InstanceSource, Instance, Registry, Resolved,
  create_registry, normalize_contract, normalize_instance, register_contracts, register_instances,
  resolve_operation, get_contract, get_instance,
}
use fdos_genesis.Domain.Connectors.DryRun.{IsContained, resolve_operation-IsContained}
use fdos_genesis.Tests.Samples.{a_digest, connector_id}

abbrev digests : ConnectorDigests
digests = record { operation_digest = λ o. a_digest; contract_digest = λ c. a_digest }

abbrev operation_source : OperationSource
operation_source = record {
  action_type = "connector.reference.read";
  description = "Reads one item";
  id = "reference.read";
  parameter_fields =
      record { name = "limit"; type = FieldType.integer; required = true; max_length = 0 } ∷ [];
  risk_class = Risk.a1;
  sensitivity = Sensitivity.internal;
  target_prefix = "reference:items/";
}

abbrev operation : Operation
operation = record {
  unsigned = record { source = operation_source; capability = "connector:read:reference" };
  digest = a_digest;
}

abbrev contract_source : ContractSource
contract_source = record {
  description = "Reads reference items";
  execution_mode = "dry_run";
  external_effects = false;
  id = "reference.contract";
  max_attempts = 2;
  name = "Reference";
  network_access = false;
  operations = operation_source ∷ [];
  version = "1.0.0";
}

abbrev contract : Contract
contract = record {
  unsigned = record {
    id = "reference.contract";
    version = "1.0.0";
    name = "Reference";
    description = "Reads reference items";
    execution_mode = "dry_run";
    network_access = false;
    external_effects = false;
    max_attempts = 2;
    operations = operation ∷ [];
  };
  digest = a_digest;
}

abbrev instance_source : InstanceSource
instance_source = record {
  contract_id = "reference.contract";
  contract_version = "1.0.0";
  id = connector_id;
  name = "Reader";
  status = InstanceStatus.active;
}

abbrev the_instance : Instance
the_instance = record { source = instance_source; contract_digest = a_digest }

abbrev pub registry : Registry
registry = record {
  contracts = ("reference.contract@1.0.0", contract) ∷ [];
  instances = (connector_id, the_instance) ∷ [];
}

registry_made :
    create_registry default_actions digests (contract_source ∷ []) (instance_source ∷ [])
    ≡ ok registry
unfolding create_registry register_contracts register_instances normalize_contract
    normalize_instance normalize_operations normalize_operation normalize_fields
    normalize_parameter_field is_dotted_id is_field_name is_sensitive_name mentions begins
    is_target_prefix is_version is_event_type is_connector_id required_string starts_with skip cut
    trim trim_start trim_end text_length every_char JsMap.set JsMap.get Catalog.get
registry_made = refl

-- A contract with network access is refused.
network_refused :
    normalize_contract default_actions digests (record contract_source { network_access = true })
    ≡ err policy
unfolding normalize_contract
network_refused = refl

abbrev found : Resolved
found = record { connector = the_instance; contract = contract; operation = operation }

operation_resolved : resolve_operation registry connector_id "reference.read" ≡ ok found
unfolding resolve_operation get_contract get_instance is_dotted_id required_string starts_with skip
    cut trim trim_start trim_end text_length every_char JsMap.get
operation_resolved = refl

resolve_operation-IsContained_example : IsContained found
resolve_operation-IsContained_example =
    resolve_operation-IsContained default_actions digests (contract_source ∷ [])
      (instance_source ∷ []) connector_id "reference.read" registry_made operation_resolved
