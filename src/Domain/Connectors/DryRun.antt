-- ===== src/Domain/Connectors/DryRun.antt =====
-- domain/connector-contract.js: what the checks of `normalizeContract` say of an operation that
-- `resolveOperation` finds.
use fdos_genesis.Prelude.{
  ◌≤◌, ◌≡◌, refl, true, false, Bool-cases, inl, inr, String, some, List, [], ◌∷◌, arith, subst, not,
  ◌&&◌, length, ◌is◌, All, leb,
}
use fdos_genesis.Kernel.Result.{
  ok, >>=-eq-ok, >>-eq-ok, or_throw-eq-ok, guard, or_throw, validation, policy, conflict,
  authorization, not_found,
}
use fdos_genesis.Kernel.Validation.{required_string, no_duplicates, anything}
use fdos_genesis.Kernel.JsMap.{JsMap, AllValues, AllValues-get, AllValues-set}
use fdos_genesis.Kernel.JsMap
use fdos_genesis.Domain.Catalog.{Catalog, risk_below}
use fdos_genesis.Domain.Catalog
use fdos_genesis.Kernel.EventLog.{is_event_type}
use fdos_genesis.Domain.Delivery.{is_version}
use fdos_genesis.Domain.Agents.{is_active}
use fdos_genesis.Domain.Delivery.Create.{is_dry_run}
use fdos_genesis.Domain.Connectors.{
  ParameterField, OperationSource, Operation, is_low, is_open, is_sensitive_name,
  normalize_parameter_field, normalize_fields, normalize_operation, normalize_operations,
  is_target_prefix, is_dotted_id, field_names,
}
use fdos_genesis.Domain.Connectors.Registry.{
  ContractSource, Contract, ConnectorDigests, InstanceSource, Registry, Resolved,
  normalize_contract, register_contracts, register_instances, create_registry, get_contract,
  get_instance, find_operation, resolve_operation, contract_key, operation_ids,
}
use fdos_genesis.Domain.Connectors.Parameters.{resolved_connector}

pub record IsHarmless (o : Operation) : Type 0 where
  pub low : is_low o.risk_class ≡ true
  pub exposed : is_open o.sensitivity ≡ true
  pub nameless : All (λ (f : ParameterField). is_sensitive_name f.name ≡ false) o.parameter_fields

pub record IsDryRun (c : Contract) : Type 0 where
  pub mode : c.execution_mode ≡ "dry_run"
  pub offline : c.network_access ≡ false
  pub effectless : c.external_effects ≡ false
  pub tried : (1 ≤ c.max_attempts) × (c.max_attempts ≤ 3)
  pub harmless : All IsHarmless c.operations

normalize_parameter_field-nameless :
    (source : ParameterField) {f : ParameterField}
    → normalize_parameter_field source ≡ ok f
    → is_sensitive_name f.name ≡ false
unfolding normalize_parameter_field
normalize_parameter_field-nameless source h = ground arith

normalize_fields-nameless :
    (sources : List ParameterField) {fields : List ParameterField}
    → normalize_fields sources ≡ ok fields
    → All (λ (f : ParameterField). is_sensitive_name f.name ≡ false) fields
unfolding normalize_fields
normalize_fields-nameless [] h = ground arith
normalize_fields-nameless (source ∷ sources) h =
    let (f, p, h₁) = >>=-eq-ok (normalize_parameter_field source) _ h in
    let (fs, q, h₂) = >>=-eq-ok (normalize_fields sources) _ h₁ in
    let first = normalize_parameter_field-nameless source p in
    let others = normalize_fields-nameless sources q in ground arith

module _ (catalog : Catalog) (digests : ConnectorDigests) where
  normalize_operation-IsHarmless :
      (source : OperationSource) {o : Operation}
      → normalize_operation catalog digests.operation_digest source ≡ ok o
      → IsHarmless o
  unfolding normalize_operation
  normalize_operation-IsHarmless source {o} h =
      let (t, p₀, h₀) = >>=-eq-ok (required_string 1 120 is_event_type source.action_type) _ h in
      let (a, p₁, h₁) = >>=-eq-ok (Catalog.get catalog t) _ h₀ in
      let ((u₂, p₂), h₂) = >>-eq-ok (guard (is_low source.risk_class) validation) _ h₁ in
      let ((u₃, p₃), h₃) =
        >>-eq-ok (guard (not (risk_below source.risk_class a.minimum_risk_class)) policy) _ h₂ in
      let ((u₄, p₄), h₄) = >>-eq-ok (guard (is_open source.sensitivity) policy) _ h₃ in
      let (g, p₅, h₅) =
        >>=-eq-ok (required_string 1 120 is_target_prefix source.target_prefix) _ h₄ in
      let (fs, p₆, h₆) = >>=-eq-ok (normalize_fields source.parameter_fields) _ h₅ in
      let ((u₇, p₇), h₇) = >>-eq-ok (guard (leb (length fs) 16) validation) _ h₆ in
      let ((u₈, p₈), h₈) = >>-eq-ok (guard (no_duplicates (field_names fs)) conflict) _ h₇ in
      let (i, p₉, h₉) = >>=-eq-ok (required_string 1 80 is_dotted_id source.id) _ h₈ in
      let (d, q, rest) = >>=-eq-ok (required_string 1 500 anything source.description) _ h₉ in
      let same : fs ≡ o.parameter_fields = ground (arith, rest) in
      record {
        low = ground (arith, rest, p₂);
        exposed = ground (arith, rest, p₄);
        nameless =
            subst (All (λ (f : ParameterField). is_sensitive_name f.name ≡ false)) same
              (normalize_fields-nameless source.parameter_fields p₆);
      }

  normalize_operations-IsHarmless :
      (sources : List OperationSource) {os : List Operation}
      → normalize_operations catalog digests.operation_digest sources ≡ ok os
      → All IsHarmless os
  unfolding normalize_operations
  normalize_operations-IsHarmless [] h = ground arith
  normalize_operations-IsHarmless (source ∷ sources) h =
      let (o, p, h₁) =
        >>=-eq-ok (normalize_operation catalog digests.operation_digest source) _ h in
      let (os, q, h₂) =
        >>=-eq-ok (normalize_operations catalog digests.operation_digest sources) _ h₁ in
      let first = normalize_operation-IsHarmless source p in
      let others = normalize_operations-IsHarmless sources q in ground arith

  normalize_contract-IsDryRun :
      (source : ContractSource) {c : Contract}
      → normalize_contract catalog digests source ≡ ok c
      → IsDryRun c
  unfolding normalize_contract
  normalize_contract-IsDryRun source {c} h =
      let ((u₀, p₀), h₀) = >>-eq-ok (guard (leb 1 (length source.operations)) validation) _ h in
      let ((u₁, p₁), h₁) = >>-eq-ok (guard (leb (length source.operations) 32) validation) _ h₀ in
      let ((u₂, p₂), h₂) = >>-eq-ok (guard (source.execution_mode is "dry_run") policy) _ h₁ in
      let ((u₃, p₃), h₃) = >>-eq-ok (guard (not source.network_access) policy) _ h₂ in
      let ((u₄, p₄), h₄) = >>-eq-ok (guard (not source.external_effects) policy) _ h₃ in
      let ((u₅, p₅), h₅) =
        >>-eq-ok (guard (leb 1 source.max_attempts && leb source.max_attempts 3) validation) _ h₄ in
      let (os, p₆, h₆) =
        >>=-eq-ok (normalize_operations catalog digests.operation_digest source.operations) _ h₅ in
      let ((u₇, p₇), h₇) = >>-eq-ok (guard (no_duplicates (operation_ids os)) conflict) _ h₆ in
      let (i, p₈, h₈) = >>=-eq-ok (required_string 1 80 is_dotted_id source.id) _ h₇ in
      let (v, p₉, h₉) = >>=-eq-ok (required_string 1 80 is_version source.version) _ h₈ in
      let (n, q, h₁₀) = >>=-eq-ok (required_string 1 160 anything source.name) _ h₉ in
      let (d, r, rest) = >>=-eq-ok (required_string 1 1000 anything source.description) _ h₁₀ in
      let same : os ≡ c.operations = ground (arith, rest) in
      record {
        mode = ground (arith, rest);
        offline = ground (arith, rest);
        effectless = ground (arith, rest);
        tried = (ground (arith, rest, p₅), ground (arith, rest, p₅));
        harmless =
            subst (All IsHarmless) same (normalize_operations-IsHarmless source.operations p₆);
      }

  register_contracts-IsDryRun :
      (contracts : JsMap Contract) (sources : List ContractSource) {all : JsMap Contract}
      → AllValues IsDryRun contracts
      → register_contracts catalog digests contracts sources ≡ ok all
      → AllValues IsDryRun all
  unfolding register_contracts
  register_contracts-IsDryRun contracts [] v h = ground arith
  register_contracts-IsDryRun contracts (source ∷ sources) v h =
      let (c, p, h₁) = >>=-eq-ok (normalize_contract catalog digests source) _ h in
      let ((u, g), h₂) = >>-eq-ok (guard _ conflict) _ h₁ in
      register_contracts-IsDryRun (JsMap.set (contract_key c.id c.version) c contracts) sources
        (AllValues-set IsDryRun (contract_key c.id c.version) c contracts v
          (normalize_contract-IsDryRun source p))
        h₂

  create_registry-IsDryRun :
      (contracts : List ContractSource) (instances : List InstanceSource) {registry : Registry}
      → create_registry catalog digests contracts instances ≡ ok registry
      → AllValues IsDryRun registry.contracts
  unfolding create_registry
  create_registry-IsDryRun contracts instances {registry} h =
      let (cs, p, h₁) = >>=-eq-ok (register_contracts catalog digests [] contracts) _ h in
      let (found, q, h₂) = >>=-eq-ok (register_instances cs [] instances) _ h₁ in
      let same : cs ≡ registry.contracts = ground arith in
      subst (AllValues IsDryRun) same (register_contracts-IsDryRun [] contracts tt p)

find_operation-IsHarmless :
    (id : String) (os : List Operation) {o : Operation}
    → All IsHarmless os
    → find_operation id os ≡ some o
    → IsHarmless o
find_operation-IsHarmless id [] v h = cc
find_operation-IsHarmless id (x ∷ os) {o} v h = elim (Bool-cases (x.id is id)) [
  | inl here ↦ let same : x ≡ o = ground arith in subst IsHarmless same v.0
  | inr there ↦ find_operation-IsHarmless id os v.1 (rw there at h)
]

-- What a resolved operation may do.
pub record IsContained (r : Resolved) : Type 0 where
  pub dry : is_dry_run (resolved_connector r) ≡ true
  pub tried : (1 ≤ r.contract.max_attempts) × (r.contract.max_attempts ≤ 3)
  pub harmless : IsHarmless r.operation

resolved_from_parts : (r : Resolved) → IsDryRun r.contract → IsHarmless r.operation → IsContained r
resolved_from_parts r c o = record {
  dry = rw (c.mode, c.offline, c.effectless) refl;
  tried = c.tried;
  harmless = o;
}

resolved_operation-IsContained :
    (registry : Registry) (connector_id operation_id : String) {r : Resolved}
    → AllValues IsDryRun registry.contracts
    → resolve_operation registry connector_id operation_id ≡ ok r
    → IsContained r
unfolding resolve_operation get_contract
resolved_operation-IsContained registry connector_id operation_id {r} v h =
    let (i, p₀, h₀) = >>=-eq-ok (get_instance registry connector_id) _ h in
    let ((u₁, p₁), h₁) = >>-eq-ok (guard (is_active i.status) authorization) _ h₀ in
    let (c, p₂, h₂) = >>=-eq-ok (get_contract registry i.contract_id i.contract_version) _ h₁ in
    let ((u₃, p₃), h₃) = >>-eq-ok (guard (c.digest is i.contract_digest) policy) _ h₂ in
    let (n, p₄, h₄) = >>=-eq-ok (required_string 1 80 is_dotted_id operation_id) _ h₃ in
    let (o, p₅, rest) = >>=-eq-ok (or_throw (find_operation n c.operations) authorization) _ h₄ in
    let dry =
      AllValues-get IsDryRun (contract_key i.contract_id i.contract_version) registry.contracts v (
        or_throw-eq-ok
          (JsMap.get (contract_key i.contract_id i.contract_version) registry.contracts) not_found
          p₂) in
    let found : Resolved = record { connector = i; contract = c; operation = o } in
    let same : found ≡ r = ground (arith, rest) in
    subst IsContained same (
      resolved_from_parts found dry (
        find_operation-IsHarmless n c.operations dry.harmless
          (or_throw-eq-ok (find_operation n c.operations) authorization p₅)))

-- What a registry resolves, if it was made from definitions of contracts and instances, is a dry
-- run without network access and external effects, of at most three attempts, on an operation of
-- risk class A0 or A1 and of public or internal data, none of whose parameters is named like a
-- credential.
pub resolve_operation-IsContained :
    (catalog : Catalog) (digests : ConnectorDigests) (contracts : List ContractSource)
    (instances : List InstanceSource) {registry : Registry} (connector_id operation_id : String)
    {r : Resolved}
    → create_registry catalog digests contracts instances ≡ ok registry
    → resolve_operation registry connector_id operation_id ≡ ok r
    → IsContained r
resolve_operation-IsContained catalog digests contracts instances {registry} connector_id
      operation_id made resolved =
    resolved_operation-IsContained registry connector_id operation_id
      (create_registry-IsDryRun catalog digests contracts instances made) resolved
