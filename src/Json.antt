-- ===== src/Json.antt =====
-- Decoded JSON, as the plugin handles it: `map[string]any`, `[]any` and the scalars. Decoding and
-- encoding belong to encoding/json. An object is an association list without repeated keys.
use workbuddy_cpa_plugin.Base.{Bool, Option, none, some, String, if◌then◌else◌, ◌==◌, string_eq}

-- A number keeps the text of its literal.
mutual
  pub data Json : Type 0 where
    null : Json
    bool : Bool → Json
    number : String → Json
    string : String → Json
    array : Items → Json
    object : Fields → Json

  pub data Items : Type 0 where
    nil : Items
    cons : Json → Items → Items

  pub data Fields : Type 0 where
    end : Fields
    field : String → Json → Fields → Fields

-- `obj[key]`, with `none` for a missing key.
unfoldable pub get : String → Fields → Option Json
get key end = none
get key (field k v fs) = if k == key then some v else get key fs

-- `obj[key] = v`.
unfoldable pub put : String → Json → Fields → Fields
put key v end = field key v end
put key v (field k w fs) = if k == key then field k v fs else field k w (put key v fs)

-- `delete(obj, key)`.
unfoldable pub remove : String → Fields → Fields
remove key end = end
remove key (field k v fs) = let rest = remove key fs in if k == key then rest else field k v rest
