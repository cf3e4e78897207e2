-- ===== src/Chat.antt =====
-- workbuddy/chat_error.go: what an upstream chat error says about quotas and credentials.
pub mod Classify
pub mod Scope
pub mod Surface
pub mod Frames
mod Tests
use workbuddy_cpa_plugin.Base.{
  ℕ, ◌≡◌, Bool, true, false, ◌&&◌, ◌||◌, not, List, [], ◌∷◌, ◌++◌, map, Option, none, some, String,
  arith, if◌then◌else◌, ◌==◌, nat_eq, string_eq, any,
}
use workbuddy_cpa_plugin.Base.Text.{
  codes, contains, has_prefix, to_lower, join, trim_space, is_empty,
}
use workbuddy_cpa_plugin.Json.{
  Json, null, bool, number, string, array, object, Fields, end, field, get,
}
use workbuddy_cpa_plugin.Cooldown.{
  CooldownReason, unset, rate_limit, call_quota, credit_quota, shared_credits, QuotaScope, unscoped,
  model_scope, account_scope, ChatFailure,
}

-- The text of a failure in lower case, its code, and its scope in lower case.
pub record ErrorFields : Type 0 where
  pub text : List ℕ
  pub code : String
  pub scope : List ℕ

abbrev no_fields : ErrorFields
no_fields = record { text = []; code = ""; scope = [] }

-- The closure `read`: a string or a number, else "".
abbrev pub read : Option Json → String
read (some (string s)) = s
read (some (number n)) = n
read _ = ""

abbrev pub chat_contains : List ℕ → List String → Bool
chat_contains s patterns = any (λ p. contains s (codes p)) patterns

-- The body text of the values whose own text `read` leaves empty.
abbrev literal : Json → List ℕ
literal (bool true) = codes "true"
literal (bool false) = codes "false"
literal (array xs) = codes "["
literal _ = codes "\"\""

abbrev has_choices : Option Json → Bool
has_choices none = false
has_choices (some v) = true

-- Whether `error` is there, is not null, and `read` gives no text for it.
abbrev is_opaque : Json → Bool
is_opaque null = false
is_opaque v = is_empty (read (some v))

module _ (unicode : ℕ → ℕ) where
  -- A body, or a nested `error`, that does not decode as an object.
  plain_fields : List ℕ → ErrorFields
  plain_fields body =
      if has_prefix body (codes "{") || has_prefix body (codes "[")
      then no_fields
      else record { text = to_lower unicode body; code = ""; scope = [] }

  -- What an object's own fields and those of its `error` give together.
  merge_fields : Fields → Option ErrorFields → String → ErrorFields
  merge_fields obj nested own = record {
    text = to_lower unicode (
        join (codes " ") (
          codes (read (get "msg" obj))
          ∷ codes (read (get "message" obj))
          ∷ codes (read (get "type" obj))
          ∷ extra));
    code = code;
    scope = to_lower unicode scope;
  }
    where
      extra : List (List ℕ)
      extra = elim nested [
        | none ↦ (if is_empty own then [] else codes own ∷ [])
        | some n ↦ n.text ∷ []
      ]

      code : String
      code = elim nested [
        | none ↦ read (get "code" obj)
        | some n ↦
            if is_empty (read (get "code" obj)) || read (get "code" obj) == "0"
            then n.code
            else read (get "code" obj)
      ]

      scope : List ℕ
      scope = elim nested [
        | none ↦ codes (read (get "scope" obj))
        | some n ↦
            if is_empty (read (get "scope" obj)) then n.scope else codes (read (get "scope" obj))
      ]

-- `chatErrorFields` on a decoded object, and on the value of its `error`; `none` where the object has
-- no `error`, or one that `read` takes whole. A body `null` decodes as the empty object.
mutual
  pub object_fields : (ℕ → ℕ) → Json → ErrorFields
  object_fields unicode (object obj) =
      if has_choices (get "choices" obj)
      then no_fields
      else merge_fields unicode obj (nested_fields unicode obj) (read (get "error" obj))
  object_fields unicode null = merge_fields unicode end none ""
  object_fields unicode v = plain_fields unicode (literal v)

  pub nested_fields : (ℕ → ℕ) → Fields → Option ErrorFields
  nested_fields unicode end = none
  nested_fields unicode (field k v fs) =
      let here = object_fields unicode v in
      let rest = nested_fields unicode fs in
      if k == "error" then (if is_opaque v then some here else none) else rest

module _ (unicode : ℕ → ℕ) (decode : String → Option Json) where
  -- `chatErrorFields`.
  unfoldable pub chat_error_fields : String → ErrorFields
  unfolding object_fields nested_fields plain_fields merge_fields
  chat_error_fields body = elim (decode body) [
    | some (object obj) ↦ object_fields unicode (object obj)
    | some null ↦ object_fields unicode null
    | _ ↦ plain_fields unicode (codes (trim_space body))
  ]
