-- ===== src/Domain/Connectors/Parameters.antt =====
-- `normalizeParameters`: the parameters of a call of a connector against the fields of its operation.
use Prim.Native.Char.{code}
use fdos_genesis.Prelude.{
  ℕ, ◌==◌, Bool, true, false, not, ◌&&◌, ◌||◌, String, Option, none, some, List, [], ◌∷◌, leb, ltb,
  ◌is◌, if◌then◌else◌, is_some,
}
use fdos_genesis.Kernel.Result.{Result, ok, err, validation, guard, or_throw, ◌>>=◌, ◌>>◌}
use fdos_genesis.Kernel.Validation.{required_string, anything}
use fdos_genesis.Kernel.Json.{Json, bool, num, text, Fields, end, field}
use fdos_genesis.Domain.Delivery.Create.{ResolvedConnector}
use fdos_genesis.Domain.Connectors.{FieldType, boolean, integer, string, ParameterField}
use fdos_genesis.Domain.Connectors.Registry.{Resolved}

-- The order of two keys.
unfoldable pub text_leb : String → String → Bool
text_leb String.[] t = true
text_leb (String.◌∷◌ c s) String.[] = false
text_leb (String.◌∷◌ c s) (String.◌∷◌ d t) =
    ltb (code c) (code d) || (code c == code d && text_leb s t)

unfoldable pub insert_key : String → Json → Fields → Fields
insert_key name value end = field name value end
insert_key name value (field k v fs) =
    let rest = insert_key name value fs in
    if text_leb name k then field name value (field k v fs) else field k v rest

unfoldable pub sort_keys : Fields → Fields
unfolding insert_key
sort_keys end = end
sort_keys (field k v fs) = insert_key k v (sort_keys fs)

abbrev pub field_of : String → List ParameterField → Option ParameterField
field_of name [] = none
field_of name (f ∷ fs) = if f.name is name then some f else field_of name fs

abbrev pub has_key : String → Fields → Bool
has_key name end = false
has_key name (field k v fs) = k is name || has_key name fs

-- No key is unexpected, and none that is required is missing.
abbrev pub all_known : List ParameterField → Fields → Bool
all_known schema end = true
all_known schema (field k v fs) = is_some (field_of k schema) && all_known schema fs

abbrev pub none_missing : List ParameterField → Fields → Bool
none_missing [] source = true
none_missing (f ∷ fs) source = (not f.required || has_key f.name source) && none_missing fs source

-- `Number.isSafeInteger` of a number, and the length of the text of an object in bytes.
pub record Measures : Type 0 where
  pub is_safe_integer : String → Bool
  pub byte_length : Fields → ℕ

module _ (measures : Measures) where
  abbrev pub normalize_value : FieldType → ℕ → Json → Result Json
  normalize_value string max (text s) = do t ← required_string 1 max anything s; ok (text t)
  normalize_value boolean max (bool b) = ok (bool b)
  normalize_value integer max (num n) =
      if measures.is_safe_integer n then ok (num n) else err validation
  normalize_value _ max _ = err validation

  unfoldable pub normalize_values : List ParameterField → Fields → Result Fields
  normalize_values schema end = ok end
  normalize_values schema (field k v fs) = do
    f ← or_throw (field_of k schema) validation
    value ← normalize_value f.type f.max_length v
    values ← normalize_values schema fs
    ok (field k value values)

  unfoldable pub normalize_parameters : List ParameterField → Fields → Result Fields
  unfolding sort_keys normalize_values
  normalize_parameters schema source = do
    guard (all_known schema source && none_missing schema source) validation
    normalized ← normalize_values schema (sort_keys source)
    guard (leb (measures.byte_length normalized) 32768) validation
    ok normalized

-- What a delivery intent binds of a resolved operation.
abbrev pub resolved_connector : Resolved → ResolvedConnector
resolved_connector r = record {
  instance_id = r.connector.id;
  contract_id = r.contract.id;
  contract_version = r.contract.version;
  contract_digest = r.contract.digest;
  execution_mode = r.contract.execution_mode;
  network_access = r.contract.network_access;
  external_effects = r.contract.external_effects;
  max_attempts = r.contract.max_attempts;
  operation = record {
    id = r.operation.id;
    digest = r.operation.digest;
    action_type = r.operation.action_type;
    capability = r.operation.capability;
    risk_class = r.operation.risk_class;
    sensitivity = r.operation.sensitivity;
    target_prefix = r.operation.target_prefix;
  };
}
