-- ===== src/Kernel/Json.antt =====
-- The JSON values that the runtime keeps without reading them. A number is its text.
use fdos_genesis.Prelude.{Bool, String, ◌is◌, ◌||◌, false, true, not, ◌&&◌}

mutual
  pub data Json : Type 0 where
    null : Json
    bool : Bool → Json
    num : String → Json
    text : String → Json
    arr : Items → Json
    obj : Fields → Json

  pub data Items : Type 0 where
    nil : Items
    cons : Json → Items → Items

  pub data Fields : Type 0 where
    end : Fields
    field : String → Json → Fields → Fields

abbrev pub is_null : Json → Bool
is_null null = true
is_null _ = false

-- `Object.hasOwn(result, name) && result[name] !== null`, of the fields of an object.
unfoldable pub has_value : String → Fields → Bool
has_value name end = false
has_value name (field k v fs) = (k is name && not (is_null v)) || has_value name fs
