-- ===== src/Lifecycle/Tests.antt =====
-- The theorems on account files at concrete files.
use workbuddy_cpa_plugin.Base.{
  ◌≡◌, ◌⊎◌, refl, Bool, true, false, List, [], ◌∷◌, Option, none, some, String, string_eq,
}
use workbuddy_cpa_plugin.Base.Int.{pos}
use workbuddy_cpa_plugin.Base.Text.{trim_space, codes, contains, has_prefix}
use workbuddy_cpa_plugin.Accounts.{CreditsSummary}
use workbuddy_cpa_plugin.Json.{Json, null, bool, string, Fields, end, field, get}
use workbuddy_cpa_plugin.Lifecycle.{
  StoredDocument, build_auth_file_json_from, parse_disabled, disabled_reason, raw_note,
}
use workbuddy_cpa_plugin.Lifecycle.Steps.{Account, Turn, known}
use workbuddy_cpa_plugin.Lifecycle.Inherited.{
  clears, extra_of, reason_of, build_auth_file_json_from-read,
}
use workbuddy_cpa_plugin.Lifecycle.Keepalive.{
  StoredTokens, refresh_one_auth, rejected, IsParked, mark_session_dead-IsParked,
  is_session_dead_error,
}
use workbuddy_cpa_plugin.Lifecycle.Provenance.{
  Reconcile, reconciles, reconciles_provenance, SameReason, Revived,
}

abbrev stored : StoredDocument
stored = record { auth = null; account = null; label = "n [CN]"; email = "n" }

abbrev parked : Fields
parked =
    field "disabled" (bool true)
      (field "disabled_reason" (string "manual") (field "plan" (string "pro") end))

build_auth_file_json_from-read_example :
    let written = build_auth_file_json_from stored true "CN" (extra_of clears) parked in
    (parse_disabled written ≡ true)
    × (raw_note written ≡ "CN")
    × (get "auth" written ≡ some null)
    × (get "account" written ≡ some null)
    × (disabled_reason written ≡ reason_of clears (disabled_reason parked))
    × (get "plan" written ≡ get "plan" parked)
build_auth_file_json_from-read_example =
    build_auth_file_json_from-read stored true "CN" parked clears "plan"
      (refl, refl, refl, refl, refl, refl, refl, refl, refl) refl

abbrev turn : Turn
turn = record { now = 100; reads = true; writes = true }

abbrev once : List Reconcile
once =
    record {
      turn = turn;
      region = "cn";
      seen = parked;
      credits =
          known
            (record { total_remain = pos 5; total_used = pos 1; total_size = pos 6; packages = 1 });
      again =
          known
            (record { total_remain = pos 5; total_used = pos 1; total_size = pos 6; packages = 1 });
    }
    ∷ []

abbrev note : Option CreditsSummary → Bool → String → String
note cr disabled before = "CN"

abbrev same : String → String
same s = s

abbrev plain : String → String → String
plain n r = n

abbrev account : Account
account = record { file = some parked; remembered = none; dropped = false }

reconciles_provenance_example :
    SameReason parked (reconciles note same plain stored once account).file
    ⊎ Revived parked (reconciles note same plain stored once account).file
reconciles_provenance_example =
    reconciles_provenance note same plain stored once parked account refl

abbrev active : Fields
active = field "disabled" (bool false) end

abbrev tokens : StoredTokens
tokens = record { access_token = "a"; refresh_token = "r"; expires_at = pos 0; domain = "" }

abbrev no_encoding : StoredTokens → Json
no_encoding t = null

mark_session_dead-IsParked_example :
    IsParked
      (reconciles note same plain stored once
        (refresh_one_auth no_encoding null
          (some tokens)
          (rejected (codes "12153") [])
          (pos 0)
          true
          (record { file = some active; remembered = none; dropped = false })).0).file
unfolding parse_disabled get trim_space is_session_dead_error contains has_prefix
mark_session_dead-IsParked_example =
    mark_session_dead-IsParked note same plain stored no_encoding null tokens (codes "12153") []
      (pos 0) once active (record { file = some active; remembered = none; dropped = false }) refl
      refl refl refl
