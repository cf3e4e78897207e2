-- ===== src/Payload/Tests.antt =====
-- The theorems on the request payload at concrete requests.
use workbuddy_cpa_plugin.Base.{ℕ, ◌≡◌, refl, Bool, String, ◌==◌, string_eq}
use workbuddy_cpa_plugin.Json.{Json, string, object, array, cons, nil, Fields, field, end, get}
use workbuddy_cpa_plugin.Payload.{normalize_tools_in_place}
use workbuddy_cpa_plugin.Payload.Tools.{IsText, normalize_tools_in_place-IsText}

abbrev same_case : ℕ → ℕ
same_case c = c

abbrev equal : String → String → Bool
equal a b = a == b

abbrev user_message : Json
user_message = object (field "role" (string "user") end)

abbrev request : Fields
request = field "messages" (array (cons user_message nil)) (
    field "tool_choice"
      (object (field "type" (string "function") (field "name" (string "look") end))) end)

normalize_tools_in_place-IsText_example :
    let out = (normalize_tools_in_place same_case equal request).0 in
    IsText (get "tool_choice" out) × (get "messages" out ≡ get "messages" request)
normalize_tools_in_place-IsText_example =
    normalize_tools_in_place-IsText same_case equal request "messages" refl
