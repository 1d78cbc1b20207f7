-- ===== src/Protocol/Json.antt =====
-- `JsonValue` of crates/uprava-protocol/src/serde_json_value.rs: a JSON document. An object is the
-- list of its members; a number that is no integer is kept as its text.
use uprava.Prelude.{Bool, Option, none, some, List, [], ◌∷◌, Text, text_eq, ℤ, if◌then◌else◌}

mutual
  pub data Json : Type 0 where
    null : Json
    bool : Bool → Json
    number : ℤ → Json
    float : Text → Json
    string : Text → Json
    array : JsonItems → Json
    object : JsonFields → Json

  pub data JsonItems : Type 0 where
    nil : JsonItems
    cons : Json → JsonItems → JsonItems

  pub data JsonFields : Type 0 where
    end : JsonFields
    field : Text → Json → JsonFields → JsonFields

unfoldable pub get_field : Text → JsonFields → Option Json
get_field k end = none
get_field k (field j v fs) = if text_eq j k then some v else get_field k fs

-- `Value::get(key)`
unfoldable pub json_get : Text → Json → Option Json
unfolding get_field
json_get k (object fs) = get_field k fs
json_get k _ = none

-- `Value::as_str`
unfoldable pub as_str : Json → Option Text
as_str (string s) = some s
as_str _ = none

-- `Value::as_bool`
unfoldable pub as_bool : Json → Option Bool
as_bool (bool b) = some b
as_bool _ = none

-- `Value::as_i64`, for a number that the caller narrows further
unfoldable pub as_i64 : Json → Option ℤ
as_i64 (number z) = some z
as_i64 _ = none

-- `json!({})`
abbrev pub empty_object : Json
empty_object = object end

-- `json!({..})` with the members in the order of the source
abbrev pub fields_of : List (Text × Json) → JsonFields
fields_of [] = JsonFields.end
fields_of ((k, v) ∷ fs) = JsonFields.field k v (fields_of fs)

abbrev pub object_of : List (Text × Json) → Json
object_of fs = object (fields_of fs)

-- `Map::remove(key)` on the members of an object
unfoldable pub remove_field : Text → JsonFields → JsonFields
remove_field k end = end
remove_field k (field j v fs) =
    let rest = remove_field k fs in if text_eq j k then rest else field j v rest
