-- ===== src/Domain/Connectors/Registry.antt =====
-- Contracts, instances and the registry: what is registered, and what is resolved.
use fdos_genesis.Prelude.{
  ℕ, Bool, true, false, not, ◌&&◌, String, Option, none, some, List, [], ◌∷◌, leb, ◌is◌,
  if◌then◌else◌, any, length,
}
use fdos_genesis.Kernel.Result.{
  Result, ok, authorization, conflict, not_found, policy, validation, guard, or_throw, ◌>>=◌, ◌>>◌,
}
use fdos_genesis.Kernel.Validation.{required_string, no_duplicates, anything, is_connector_id}
use fdos_genesis.Kernel.JsMap.{JsMap}
use fdos_genesis.Kernel.JsMap
use fdos_genesis.Kernel.EventLog.{Actor, ActorType, connector}
use fdos_genesis.Domain.Catalog.{Catalog}
use fdos_genesis.Domain.Roles.{append_text}
use fdos_genesis.Domain.Delivery.{is_version}
use fdos_genesis.Domain.Agents.{InstanceStatus, is_active}
use fdos_genesis.Domain.Connectors.{
  OperationSource, UnsignedOperation, Operation, is_dotted_id, normalize_operations,
}

pub record ContractSource : Type 0 where
  pub description : String
  pub execution_mode : String
  pub external_effects : Bool
  pub id : String
  pub max_attempts : ℕ
  pub name : String
  pub network_access : Bool
  pub operations : List OperationSource
  pub version : String

pub record UnsignedContract : Type 0 where
  pub id : String
  pub version : String
  pub name : String
  pub description : String
  pub execution_mode : String
  pub network_access : Bool
  pub external_effects : Bool
  pub max_attempts : ℕ
  pub operations : List Operation

pub record Contract : Type 0 where
  pub unsigned : UnsignedContract
  pub open unsigned use *
  pub digest : String

abbrev pub operation_ids : List Operation → List String
operation_ids [] = []
operation_ids (o ∷ os) = o.id ∷ operation_ids os

-- What the registry calls.
pub record ConnectorDigests : Type 0 where
  pub operation_digest : UnsignedOperation → String
  pub contract_digest : UnsignedContract → String

unfoldable pub normalize_contract : Catalog → ConnectorDigests → ContractSource → Result Contract
unfolding is_dotted_id
normalize_contract catalog digests source = do
  guard (leb 1 (length source.operations)) validation
  guard (leb (length source.operations) 32) validation
  guard (source.execution_mode is "dry_run") policy
  guard (not source.network_access) policy
  guard (not source.external_effects) policy
  guard (leb 1 source.max_attempts && leb source.max_attempts 3) validation
  operations ← normalize_operations catalog digests.operation_digest source.operations
  guard (no_duplicates (operation_ids operations)) conflict
  id ← required_string 1 80 is_dotted_id source.id
  version ← required_string 1 80 is_version source.version
  name ← required_string 1 160 anything source.name
  description ← required_string 1 1000 anything source.description
  let unsigned : UnsignedContract = record {
    id = id;
    version = version;
    name = name;
    description = description;
    execution_mode = "dry_run";
    network_access = false;
    external_effects = false;
    max_attempts = source.max_attempts;
    operations = operations;
  }
  ok (record { unsigned = unsigned; digest = digests.contract_digest unsigned })

-- An instance; the definition of one has no digest yet.
pub record InstanceSource : Type 0 where
  pub contract_id : String
  pub contract_version : String
  pub id : String
  pub name : String
  pub status : InstanceStatus

pub record Instance : Type 0 where
  pub source : InstanceSource
  pub open source use *
  pub contract_digest : String

pub record Registry : Type 0 where
  pub contracts : JsMap Contract
  pub instances : JsMap Instance

abbrev pub contract_key : (id version : String) → String
contract_key id version = append_text id (append_text "@" version)

unfoldable pub normalize_instance : InstanceSource → JsMap Contract → Result Instance
unfolding is_dotted_id
normalize_instance source contracts = do
  contract_id ← required_string 1 80 is_dotted_id source.contract_id
  contract_version ← required_string 1 80 is_version source.contract_version
  contract ← or_throw (JsMap.get (contract_key contract_id contract_version) contracts) not_found
  id ← required_string 1 160 is_connector_id source.id
  name ← required_string 1 160 anything source.name
  ok (record {
    source = record {
      contract_id = contract_id;
      contract_version = contract_version;
      id = id;
      name = name;
      status = source.status;
    };
    contract_digest = contract.digest;
  })

-- The two loops of the constructor.
unfoldable pub register_contracts :
    Catalog → ConnectorDigests → JsMap Contract → List ContractSource → Result (JsMap Contract)
register_contracts catalog digests contracts [] = ok contracts
register_contracts catalog digests contracts (source ∷ sources) =
    normalize_contract catalog digests source >>= λ c.
    guard (not (JsMap.has (contract_key c.id c.version) contracts)) conflict
    >> register_contracts catalog digests (JsMap.set (contract_key c.id c.version) c contracts)
        sources

unfoldable pub register_instances :
    JsMap Contract → JsMap Instance → List InstanceSource → Result (JsMap Instance)
register_instances contracts instances [] = ok instances
register_instances contracts instances (source ∷ sources) =
    normalize_instance source contracts >>= λ i.
    guard (not (JsMap.has i.id instances)) conflict
    >> register_instances contracts (JsMap.set i.id i instances) sources

unfoldable pub create_registry :
    Catalog → ConnectorDigests → List ContractSource → List InstanceSource → Result Registry
unfolding register_contracts register_instances
create_registry catalog digests contract_definitions instance_definitions = do
  contracts ← register_contracts catalog digests [] contract_definitions
  instances ← register_instances contracts [] instance_definitions
  ok (record { contracts = contracts; instances = instances })

unfoldable pub get_contract : Registry → (id version : String) → Result Contract
get_contract registry id version =
    or_throw (JsMap.get (contract_key id version) registry.contracts) not_found

unfoldable pub get_instance : Registry → String → Result Instance
get_instance registry id = or_throw (JsMap.get id registry.instances) not_found

unfoldable pub has_action_type : Registry → String → Bool
has_action_type registry action_type =
    any (λ contract. any (λ o. o.action_type is action_type) contract.operations)
      (JsMap.values registry.contracts)

abbrev pub is_connector_type : ActorType → Bool
is_connector_type connector = true
is_connector_type _ = false

unfoldable pub connector_actor : String → Result Actor
connector_actor id = do
  normalized ← required_string 1 160 is_connector_id id
  ok (record {
    type = connector;
    id = normalized;
    role_id = none;
    invocation_id = none;
    correlation_id = none;
  })

unfoldable pub resolve_connector : Registry → Actor → Result Actor
unfolding connector_actor
resolve_connector registry actor = do
  guard (is_connector_type actor.type) authorization
  instance' ← or_throw (JsMap.get actor.id registry.instances) authorization
  guard (is_active instance'.status) authorization
  connector_actor instance'.id

abbrev pub find_operation : String → List Operation → Option Operation
find_operation id [] = none
find_operation id (o ∷ os) = if o.id is id then some o else find_operation id os

pub record Resolved : Type 0 where
  pub connector : Instance
  pub contract : Contract
  pub operation : Operation

unfoldable pub resolve_operation : Registry → (connector_id operation_id : String) → Result Resolved
unfolding get_contract get_instance is_dotted_id
resolve_operation registry connector_id operation_id = do
  found ← get_instance registry connector_id
  guard (is_active found.status) authorization
  contract ← get_contract registry found.contract_id found.contract_version
  guard (contract.digest is found.contract_digest) policy
  normalized ← required_string 1 80 is_dotted_id operation_id
  operation ← or_throw (find_operation normalized contract.operations) authorization
  ok (record { connector = found; contract = contract; operation = operation })
