-- ===== src/Lifecycle.antt =====
-- workbuddy/lifecycle.go, with the part of workbuddy/authfile.go that writes an account's file: whether an
-- account is disabled, and the note on its card. `Inherited` is what a rewrite of the file keeps,
-- `Provenance` who may undo a disabling. An account file is its decoded document; the text of a note is a
-- function, `display_note`, of the credits, the disabled flag and the credit segment noted before.
pub mod Steps
pub mod Inherited
pub mod Provenance
pub mod Keepalive
mod Tests
use workbuddy_cpa_plugin.Base.{
  ℕ, ◌+◌, ◌-◌, Bool, true, false, not, ◌&&◌, ◌||◌, List, [], ◌∷◌, Option, none, some, String, ltb,
  string_eq, ◌==◌, if◌then◌else◌,
}
use workbuddy_cpa_plugin.Base.Text.{trim_space, is_empty}
use workbuddy_cpa_plugin.Json.{Json, null, bool, string, Fields, end, get, put, remove}

-- The parts of a `storedAuth` in its file: the encoded tokens and account, `labelForAuth` and
-- `displayEmailForAuth`.
pub record StoredDocument : Type 0 where
  pub auth : Json
  pub account : Json
  pub label : String
  pub email : String

abbrev with_extra : List (String × Option Json) → Fields → Fields
with_extra [] out = out
with_extra ((k, none) ∷ extra) out = with_extra extra (remove k out)
with_extra ((k, some v) ∷ extra) out = with_extra extra (put k v out)

abbrev with_email : String → Fields → Fields
with_email email out = if is_empty email then remove "email" out else put "email" (string email) out

-- `buildAuthFileJSONFrom`; `none` in `extra` removes a key.
unfoldable pub build_auth_file_json_from :
    StoredDocument → Bool → String → List (String × Option Json) → Fields → Fields
build_auth_file_json_from sa disabled note extra base = with_extra extra (
    with_email sa.email (
      put "account" sa.account (
        put "auth" sa.auth (
          put "note" (string note) (
            put "label" (string sa.label) (
              put "disabled" (bool disabled) (
                put "logo"
                  (string
                    "https://raw.githubusercontent.com/DGZSbot/ai-icon/refs/heads/main/WorkBuddy.png")
                  (put "provider" (string "workbuddy")
                    (put "type" (string "workbuddy") base)))))))))

abbrev pub as_bool : Option Json → Bool
as_bool (some (bool b)) = b
as_bool _ = false

abbrev pub as_text : Option Json → String
as_text (some (string s)) = s
as_text _ = ""

-- `parseDisabledFromAuthJSON`, `authFileDisabledReason` and `rawNoteFromJSON`, on files whose keys are
-- spelled as the plugin spells them.
unfoldable pub parse_disabled : Fields → Bool
parse_disabled doc = as_bool (get "disabled" doc)

unfoldable pub disabled_reason : Fields → String
disabled_reason doc = trim_space (as_text (get "disabled_reason" doc))

unfoldable pub raw_note : Fields → String
raw_note doc = as_text (get "note" doc)

-- `lifecycleStateEntry`.
pub record LifecycleStateEntry : Type 0 where
  pub disabled : Bool
  pub note : String
  pub at : ℕ

-- `lifecycleSaveTTL`, 30 seconds.
abbrev pub lifecycle_save_ttl : ℕ
lifecycle_save_ttl = 30_000_000_000

abbrev bool_eq : Bool → Bool → Bool
bool_eq true b = b
bool_eq false b = not b

-- `lifecycleStateUnchanged`, on the entry of the account.
unfoldable pub lifecycle_state_unchanged : ℕ → Bool → String → Option LifecycleStateEntry → Bool
lifecycle_state_unchanged now disabled note none = false
lifecycle_state_unchanged now disabled note (some e) =
    if not (bool_eq e.disabled disabled) || not (e.note == note)
    then false
    else ltb (now - e.at) lifecycle_save_ttl
