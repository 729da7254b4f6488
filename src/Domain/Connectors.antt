-- ===== src/Domain/Connectors.antt =====
-- domain/connector-contract.js: the contracts of connectors, the registry of their instances, and
-- what a connector may be asked to do. The digests of an operation and of a contract, the length of
-- parameters in bytes, and the test of a number for a safe integer are parameters.
pub mod Registry
pub mod Parameters
pub mod DryRun
use fdos_genesis.Prelude.{
  ℕ, ◌+◌, ◌==◌, Bool, true, false, not, ◌&&◌, ◌||◌, String, List, [], ◌∷◌, leb, ◌is◌, if◌then◌else◌,
  any, length, contains,
}
use fdos_genesis.Kernel.Result.{Result, ok, err, conflict, policy, validation, guard, ◌>>=◌, ◌>>◌}
use fdos_genesis.Kernel.Text.{
  starts_with, skip, is_lower, is_upper, is_alnum, head_and_tail, every_char, text_length,
}
use Prim.Native.Char.{code}
use fdos_genesis.Kernel.Validation.{
  required_string, anything, no_duplicates, is_prefix_tail, is_connector_id,
}
use fdos_genesis.Kernel.EventLog.{is_event_type}
use fdos_genesis.Domain.Catalog.{Catalog, Risk, a0, a1, risk_below, Sensitivity, public, internal}
use fdos_genesis.Domain.Catalog
use fdos_genesis.Domain.Delivery.{is_version}
use fdos_genesis.Domain.Agents.{InstanceStatus}

pub data FieldType : Type 0 where
  boolean integer string : FieldType

pub record ParameterField : Type 0 where
  pub name : String
  pub type : FieldType
  pub required : Bool
  pub max_length : ℕ

-- /^[a-z][a-z0-9.-]{1,79}$/
unfoldable pub is_dotted_id : String → Bool
unfolding every_char text_length
is_dotted_id s = head_and_tail is_lower (λ n. is_prefix_tail n || n == b'.') 1 79 s

-- /^[a-z][a-zA-Z0-9]{0,63}$/
unfoldable pub is_field_name : String → Bool
unfolding every_char text_length
is_field_name s = head_and_tail is_lower is_alnum 0 63 s

abbrev fold_case : ℕ → ℕ
fold_case n = if is_upper n then n + 32 else n

-- Whether a word in lower case stands at the start of a text, or anywhere in it.
unfoldable pub begins : (word : String) → String → Bool
begins String.[] s = true
begins (String.◌∷◌ p q) String.[] = false
begins (String.◌∷◌ p q) (String.◌∷◌ c s) = fold_case (code c) == code p && begins q s

unfoldable pub mentions : (word : String) → String → Bool
unfolding begins
mentions word String.[] = begins word String.[]
mentions word (String.◌∷◌ c s) = begins word (String.◌∷◌ c s) || mentions word s

-- SENSITIVE_FIELD_PATTERN
abbrev pub credential_words : List String
credential_words =
    "authorization" ∷ "cookie" ∷ "credential" ∷ "password" ∷ "privatekey" ∷ "secret" ∷ "token" ∷ []

unfoldable pub is_sensitive_name : String → Bool
unfolding mentions
is_sensitive_name name = any (λ word. mentions word name) credential_words

abbrev pub length_allowed : FieldType → ℕ → Bool
length_allowed string n = leb 1 n && leb n 4000
length_allowed _ n = n == 0

unfoldable pub normalize_parameter_field : ParameterField → Result ParameterField
unfolding is_field_name is_sensitive_name
normalize_parameter_field source = do
  name ← required_string 1 64 is_field_name source.name
  guard (not (is_sensitive_name name)) policy
  guard (length_allowed source.type source.max_length) validation
  ok (record source { name = name })

unfoldable pub normalize_fields : List ParameterField → Result (List ParameterField)
normalize_fields [] = ok []
normalize_fields (source ∷ sources) = do
  field ← normalize_parameter_field source
  fields ← normalize_fields sources
  ok (field ∷ fields)

pub record OperationSource : Type 0 where
  pub action_type : String
  pub description : String
  pub id : String
  pub parameter_fields : List ParameterField
  pub risk_class : Risk
  pub sensitivity : Sensitivity
  pub target_prefix : String

pub record UnsignedOperation : Type 0 where
  pub source : OperationSource
  pub open source use *
  pub capability : String

pub record Operation : Type 0 where
  pub unsigned : UnsignedOperation
  pub open unsigned use *
  pub digest : String

abbrev pub is_low : Risk → Bool
is_low a0 = true
is_low a1 = true
is_low _ = false

abbrev pub is_open : Sensitivity → Bool
is_open public = true
is_open internal = true
is_open _ = false

abbrev starts_target : String → String → Bool
starts_target kind s =
    starts_with s kind
    && (skip (text_length kind) s is ""
        || head_and_tail is_alnum
            (λ n. is_alnum n || n == b':' || n == b'.' || n == b'_' || n == b'/' || n == b'-') 0 120
            (skip (text_length kind) s))

-- /^(internal|reference|sandbox):(?:[a-zA-Z0-9][a-zA-Z0-9:._/-]*)?$/
unfoldable pub is_target_prefix : String → Bool
unfolding starts_with skip every_char text_length
is_target_prefix s =
    starts_target "internal:" s || starts_target "reference:" s || starts_target "sandbox:" s

abbrev pub field_names : List ParameterField → List String
field_names [] = []
field_names (field ∷ fields) = field.name ∷ field_names fields

module _ (catalog : Catalog) (digest_of : UnsignedOperation → String) where
  unfoldable pub normalize_operation : OperationSource → Result Operation
  unfolding is_target_prefix is_dotted_id
  normalize_operation source = do
    action_type ← required_string 1 120 is_event_type source.action_type
    action ← Catalog.get catalog action_type
    guard (is_low source.risk_class) validation
    guard (not (risk_below source.risk_class action.minimum_risk_class)) policy
    guard (is_open source.sensitivity) policy
    target_prefix ← required_string 1 120 is_target_prefix source.target_prefix
    fields ← normalize_fields source.parameter_fields
    guard (leb (length fields) 16) validation
    guard (no_duplicates (field_names fields)) conflict
    id ← required_string 1 80 is_dotted_id source.id
    description ← required_string 1 500 anything source.description
    let unsigned : UnsignedOperation = record {
      source = record {
        action_type = action_type;
        description = description;
        id = id;
        parameter_fields = fields;
        risk_class = source.risk_class;
        sensitivity = source.sensitivity;
        target_prefix = target_prefix;
      };
      capability = action.capability;
    }
    ok (record { unsigned = unsigned; digest = digest_of unsigned })

  unfoldable pub normalize_operations : List OperationSource → Result (List Operation)
  normalize_operations [] = ok []
  normalize_operations (source ∷ sources) = do
    operation ← normalize_operation source
    operations ← normalize_operations sources
    ok (operation ∷ operations)
