-- ===== src/Recording.antt =====
-- `quotaRetryAt`, `recordUpstreamFailureWithHeaders` and `guardExecutorQuota` of
-- workbuddy/quota_freeze.go: from an upstream error to a hold, and from a hold to a refusal.
pub mod Retry
pub mod Isolation
mod Tests
use workbuddy_cpa_plugin.Base.{
  ℕ, ◌+◌, ◌≤◌, ◌<◌, ◌≡◌, refl, sym, ap, ◌∙◌, ◌≢◌, ◌↔◌, ◌⊎◌, inl, inr, Bool, true, false, List, [],
  ◌∷◌, Option, none, some, arith, if◌then◌else◌, length, Bool-cases, Option-cases, if_elim, ltb,
  leb, ◌==◌, beq_self, is_some, String, not, string_eq, nat_eq, ◌&&◌, ◌||◌, ◌*◌, ◌/◌, suc, zero,
  ◌-◌,
}
use workbuddy_cpa_plugin.Base.Int.{ℤ, pos, negsuc}
use workbuddy_cpa_plugin.Base.Text.{trim_space, is_empty, codes, parse_int64}
use workbuddy_cpa_plugin.Json.{Json}
use workbuddy_cpa_plugin.Cooldown.{
  Table, ModelCooldownEntry, ChatFailure, CooldownReason, rate_limit, is_unset, second,
  quota_max_horizon, quota_probe_ttl, model_cooldown_rate_limit, mark_quota_freeze,
  quota_freeze_for,
}
use workbuddy_cpa_plugin.Chat.{ErrorFields, chat_error_fields}
use workbuddy_cpa_plugin.Chat.Classify.{classify_chat_failure}

abbrev pub millisecond : ℕ
millisecond = 1_000_000

-- `time.Unix(0, 0)`, in nanoseconds since the zero time.
abbrev pub unix_epoch : ℕ
unix_epoch = 62_135_596_800 * second

-- What the code takes from net/http, regexp and time: the headers by name (nil headers give ""),
-- http.ParseTime, and the reset time that the regular expression finds in an error text, with its
-- zone, as a time.
pub record Readers : Type 0 where
  pub header : String → String
  pub parse_http_time : String → Option ℕ
  pub reset_copy : List ℕ → Option ℕ

abbrev pub is_valid : ℕ → ℕ → Bool
is_valid now t = ltb now t && leb t (now + quota_max_horizon)

abbrev or_else {ℓ} : {A : Type ℓ} → Option A → Option A → Option A
or_else none y = y
or_else (some x) y = some x

abbrev only_valid : ℕ → Option ℕ → Option ℕ
only_valid now none = none
only_valid now (some t) = if is_valid now t then some t else none

-- A positive count of units within the horizon, as a time from now.
abbrev delay : ℕ → ℕ → Option ℤ → Option ℕ
delay now unit (some (pos n)) =
    if ltb 0 n && leb n (quota_max_horizon / unit) then some (now + n * unit) else none
delay now unit _ = none

-- A positive epoch, in milliseconds from 1e12 on.
abbrev epoch : ℕ → Option ℤ → Option ℕ
epoch now (some (pos n)) =
    if ltb 0 n
    then only_valid now (
        some (
          if leb 1_000_000_000_000 n
          then unix_epoch + n * millisecond
          else unix_epoch + n * second))
    else none
epoch now _ = none

abbrev tagged : String → Option ℕ → Option (ℕ × String)
tagged recovery none = none
tagged recovery (some t) = some (t, recovery)

module _ (r : Readers) where
  -- The `Retry-After` header: seconds, or a date.
  retry_after : ℕ → Option ℕ
  retry_after now =
      let s = trim_space (r.header "Retry-After") in
      if is_empty s
      then none
      else or_else (delay now second (parse_int64 (codes s))) (only_valid now (r.parse_http_time s))

  -- `quotaRetryAt`, given the text of the error; the zero time where nothing says when.
  unfoldable pub quota_retry_at : ℕ → List ℕ → ℕ × String
  unfolding retry_after
  quota_retry_at now text =
      elim (or_else (tagged "upstream_retry_after" (retry_after now)) (
        or_else
          (tagged "upstream_retry_after"
            (delay now millisecond (parse_int64 (codes (trim_space (r.header "Retry-After-Ms"))))))
          (or_else
            (tagged "upstream_reset"
              (epoch now (parse_int64 (codes (trim_space (r.header "X-RateLimit-Reset"))))))
            (tagged "upstream_reset" (only_valid now (r.reset_copy text)))))) [
              | none ↦ (0, "bounded_ttl_probe")
              | some found ↦ found
            ]

module _ (unicode : ℕ → ℕ) (decode : String → Option Json) (r : Readers) where
  abbrev ttl_of : CooldownReason → ℕ
  ttl_of rate_limit = model_cooldown_rate_limit
  ttl_of _ = quota_probe_ttl

  -- When a failure's hold ends, and why then.
  unfoldable pub hold_end : ℕ → CooldownReason → List ℕ → ℕ × String
  hold_end now reason text =
      let (until, recovery) = quota_retry_at r now text in
      if until == 0 then (now + ttl_of reason, recovery) else (until, recovery)

  -- `recordUpstreamFailureWithHeaders`; `later` is the reading of the clock in `markQuotaFreeze`.
  unfoldable pub record_upstream_failure : ℕ → ℕ → String → String → ℕ → String → Table → Table
  unfolding hold_end
  record_upstream_failure now later auth_id model status body t =
      let f = classify_chat_failure unicode decode status body in
      let (until, recovery) = hold_end now f.reason (chat_error_fields unicode decode body).text in
      if is_unset f.reason then t else mark_quota_freeze later auth_id model f until recovery t

-- `guardExecutorQuota`: whether the request is refused, and the table afterwards.
unfoldable pub guard_executor_quota : ℕ → String → String → Table → Table × Bool
guard_executor_quota now auth_id model t =
    let (t', found) = quota_freeze_for now auth_id model t in (t', is_some found)
