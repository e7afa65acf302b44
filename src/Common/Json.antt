-- ===== src/Common/Json.antt =====
-- JSON values as Python reads them, and the lookup of a field.
use Prim.Native.String.{String}
use mathlib.Core.Bool.{Bool, true, false, ◌||◌, ◌&&◌}
use mathlib.Core.List.{List}
use rule_arena.Common.Lists.{any}
use rule_arena.Common.Tests.{if◌then◌else◌}
use rule_arena.Common.Int.{ℤ}
use rule_arena.Common.Text.{str_eq}

-- A number with a fraction or an exponent keeps its text.
mutual
  pub data Json : Type 0 where
    null : Json
    boolean : Bool → Json
    integer : ℤ → Json
    float : String → Json
    text : String → Json
    array : Items → Json
    object : Fields → Json

  pub data Items : Type 0 where
    no_item : Items
    item : Json → Items → Items

  pub data Fields : Type 0 where
    no_field : Fields
    field : String → Json → Fields → Fields

-- `mapping.get(name)`, where a missing field is `None`.
unfoldable pub get : String → Fields → Json
get name no_field = null
get name (field key value rest) =
    let found = get name rest in if str_eq name key then value else found

-- `name in mapping`
abbrev pub has_field : String → Fields → Bool
has_field name no_field = false
has_field name (field key value rest) = str_eq name key || has_field name rest

-- `set(mapping) <= set(names)`
abbrev pub names_in : List String → Fields → Bool
names_in names no_field = true
names_in names (field key value rest) = any (str_eq key) names && names_in names rest
