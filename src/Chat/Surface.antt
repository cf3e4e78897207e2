-- ===== src/Chat/Surface.antt =====
-- What the host sees of an upstream error.
use workbuddy_cpa_plugin.Base.{
  ℕ, ◌≡◌, ◌≢◌, ◌⊎◌, true, false, Option, arith, String, string_eq, nat_eq,
}
use workbuddy_cpa_plugin.Json.{Json}
use workbuddy_cpa_plugin.Cooldown.{ChatFailure, unset}
use workbuddy_cpa_plugin.Chat.{ErrorFields, chat_error_fields}
use workbuddy_cpa_plugin.Chat.Classify.{
  UpstreamStatusError, quota_hold, credential_invalid, scope_unconfirmed, upstream, surface,
  classify_chat_failure, chat_upstream_error, says_billing,
}

-- The four ways in which an error is shown to the host.
abbrev pub IsSurfaced : ℕ → ErrorFields → ChatFailure → String → UpstreamStatusError → Type 0
IsSurfaced status e f excerpt shown =
    ((shown.message ≡ quota_hold f.reason f.scope) × (shown.status ≡ 0) × (f.reason ≢ unset))
    ⊎ ((shown.message ≡ credential_invalid) × (shown.status ≡ 401) × (f.credential_invalid ≡ true))
    ⊎ ((shown.message ≡ scope_unconfirmed)
        × (shown.status ≡ 0)
        × (f.reason ≡ unset)
        × ((status ≡ 402) ⊎ (status ≡ 403) ⊎ (status ≡ 401)))
    ⊎ ((shown.message ≡ upstream status excerpt)
        × (shown.status ≡ status)
        × (f.reason ≡ unset)
        × (f.credential_invalid ≡ false)
        × (status ≢ 402)
        × (status ≢ 403)
        × ((status ≢ 401) ⊎ (says_billing e ≡ false)))

surface-IsSurfaced :
    (status : ℕ) (e : ErrorFields) (f : ChatFailure) (excerpt : String)
    → IsSurfaced status e f excerpt (surface status e f excerpt)
unfolding surface
surface-IsSurfaced status e f excerpt = ground arith

-- An error reaches the host in one of four ways: as a quota hold without a status, built from reason
-- and scope alone; as 401 for a rejected credential; without a status, as unconfirmed, for 402, 403
-- or 401; or with the upstream's status and excerpt, which is then neither 402 nor 403, nor a 401
-- that speaks of billing.
pub chat_upstream_error-IsSurfaced :
    (unicode : ℕ → ℕ) (decode : String → Option Json) (truncate_redacted : String → String)
    (status : ℕ) (body : String)
    → IsSurfaced status
        (chat_error_fields unicode decode body)
        (classify_chat_failure unicode decode status body)
        (truncate_redacted body)
        (chat_upstream_error unicode decode truncate_redacted status body)
unfolding chat_upstream_error
chat_upstream_error-IsSurfaced unicode decode truncate_redacted status body =
    surface-IsSurfaced status (chat_error_fields unicode decode body)
      (classify_chat_failure unicode decode status body) (truncate_redacted body)
