-- ===== src/Payload.antt =====
-- workbuddy/payload.go: the rewriting of a chat request's tools, model and system message before it is
-- sent upstream. Decoding and encoding are encoding/json's, and `strings.EqualFold` is a parameter.
-- A body `null` decodes to a nil map, which reads like the empty object.
pub mod Tools
pub mod System
mod Tests
use workbuddy_cpa_plugin.Base.{
  ℕ, Bool, true, false, not, ◌||◌, List, Option, none, some, String, if◌then◌else◌, ◌==◌, string_eq,
}
use workbuddy_cpa_plugin.Base.Text.{trim_space, is_empty, codes, to_lower, runes_eq}
use workbuddy_cpa_plugin.Json.{
  Json, null, bool, number, string, array, object, Items, nil, cons, Fields, end, field, get, put,
  remove,
}
use workbuddy_cpa_plugin.Accounts.{StoredAuth, is_global_domain}

-- `v, _ := x.(string)`.
abbrev pub text_of : Option Json → String
text_of (some (string s)) = s
text_of _ = ""

-- `fn["name"]` for an object `fn`, else "".
abbrev nested_name : Option Json → String
nested_name (some (object fn)) = text_of (get "name" fn)
nested_name _ = ""

-- The name of the function that a tool choice forces.
abbrev pub function_name : Fields → String
function_name v = trim_space (
    if is_empty (nested_name (get "function" v))
    then text_of (get "name" v)
    else nested_name (get "function" v))

abbrev suppress_tools : Fields → Fields
suppress_tools obj = remove "functions" (remove "tools" obj)

-- The message that is put in front.
abbrev pub system_message : Json
system_message =
    object
      (field "role" (string "system") (field "content" (string "You are a helpful assistant.") end))

module _ (equal_fold : String → String → Bool) where
  -- Whether a message has the role of a system message.
  abbrev pub is_system : Json → Bool
  is_system (object msg) = equal_fold (text_of (get "role" msg)) "system"
  is_system _ = false

  unfoldable pub has_system : Items → Bool
  has_system nil = false
  has_system (cons m ms) = is_system m || has_system ms

module _ (unicode : ℕ → ℕ) (equal_fold : String → String → Bool) where
  -- The cases on the value of `tool_choice`: the object afterwards, and whether it was modified.
  unfoldable pub normalize_choice : Json → Fields → Fields × Bool
  normalize_choice (string v) obj =
      if equal_fold (trim_space v) "none"
      then (suppress_tools (remove "tool_choice" obj), true)
      else (obj, false)
  normalize_choice (object v) obj =
      let typ = to_lower unicode (codes (trim_space (text_of (get "type" v)))) in
      if runes_eq typ (codes "none")
      then (suppress_tools (remove "tool_choice" obj), true)
      else if runes_eq typ (codes "auto")
      then (put "tool_choice" (string "auto") obj, true)
      else if runes_eq typ (codes "required")
      then (put "tool_choice" (string "required") obj, true)
      else if runes_eq typ (codes "function")
      then (
        put "tool_choice" (string (if is_empty (function_name v) then "auto" else function_name v))
            obj,
        true,
      )
      else (remove "tool_choice" obj, true)
  normalize_choice _ obj = (remove "tool_choice" obj, true)

  -- `normalizeToolsInPlace`.
  unfoldable pub normalize_tools_in_place : Fields → Fields × Bool
  normalize_tools_in_place obj = elim (get "tool_choice" obj) [
    | none ↦ (obj, false)
    | some choice ↦ normalize_choice choice obj
  ]

  -- `normalizeToolsForUpstream`.
  unfoldable pub normalize_tools_for_upstream :
      (String → Option Fields) → (Fields → String) → String → String
  normalize_tools_for_upstream decode encode payload =
      if is_empty payload then payload else elim (decode payload) [
        | none ↦ payload
        | some obj ↦
            let (obj', changed) = normalize_tools_in_place obj in
            if changed then encode obj' else payload
      ]

  abbrev pub with_system : Option Json → Fields → Fields × Bool
  with_system (some (array (cons m ms))) obj =
      if has_system equal_fold (cons m ms)
      then (obj, false)
      else (put "messages" (array (cons system_message (cons m ms))) obj, true)
  with_system _ obj = (obj, false)

  -- `ensureSystemMessageInPlace`; `none` is the nil account.
  unfoldable pub ensure_system_message_in_place : Option StoredAuth → Fields → Fields × Bool
  ensure_system_message_in_place none obj = (obj, false)
  ensure_system_message_in_place (some sa) obj =
      if is_global_domain unicode sa.domain
      then with_system (get "messages" obj) obj
      else (obj, false)

  -- `ensureSystemMessage`.
  unfoldable pub ensure_system_message :
      (String → Option Fields) → (Fields → String) → Option StoredAuth → String → String
  ensure_system_message decode encode sa payload =
      if is_empty payload then payload else elim (decode payload) [
        | none ↦ payload
        | some obj ↦
            let (obj', changed) = ensure_system_message_in_place sa obj in
            if changed then encode obj' else payload
      ]

-- `rewriteModelInPlace`.
unfoldable pub rewrite_model_in_place : String → Fields → Fields × Bool
rewrite_model_in_place upstream_model obj =
    let model = trim_space upstream_model in
    if is_empty model
    then (obj, false)
    else if text_of (get "model" obj) == model
    then (obj, false)
    else (put "model" (string model) obj, true)
