-- ===== src/Recording/Tests.antt =====
-- The theorems on recorded failures at concrete errors.
use workbuddy_cpa_plugin.Base.{
  ℕ, ◌+◌, ◌≤◌, ◌<◌, ◌≡◌, refl, ◌⊎◌, inr, true, [], Option, none, some, String, arith, string_eq,
  if◌then◌else◌, ◌==◌,
}
use workbuddy_cpa_plugin.Base.Text.{codes, trim_space, contains, to_lower, join, parse_int64}
use workbuddy_cpa_plugin.Base.Lists.{any}
use workbuddy_cpa_plugin.Base.Maps.{keep}
use workbuddy_cpa_plugin.Chat.{chat_error_fields}
use workbuddy_cpa_plugin.Json.{get, Json, string, object, field, end}
use workbuddy_cpa_plugin.Cooldown.{cooldown_sweep_locked, quota_max_horizon}
use workbuddy_cpa_plugin.Cooldown.Entries.{IsTable}
use workbuddy_cpa_plugin.Chat.Classify.{classify_chat_failure, classify_fields}
use workbuddy_cpa_plugin.Recording.{
  Readers, quota_retry_at, hold_end, record_upstream_failure, guard_executor_quota,
}
use workbuddy_cpa_plugin.Recording.Retry.{quota_retry_at_bounds}
use workbuddy_cpa_plugin.Recording.Isolation.{
  record_upstream_failure-guard, record_upstream_failure-guard_other,
}

abbrev rune : ℕ → ℕ
rune c = c

-- A decoder that reads every body as a rate limit.
abbrev decode_limit : String → Option Json
decode_limit body = some (object (field "message" (string "too many requests") end))

-- Headers that ask for a wait of thirty seconds.
abbrev readers : Readers
readers = record {
  header = λ name. if name == "Retry-After" then " 30 " else "";
  parse_http_time = λ _. none;
  reset_copy = λ _. none;
}

empty-IsTable : IsTable 21 []
empty-IsTable = record { distinct = tt; small = omega arith; entries = tt }

quota_retry_at_bounds_example :
    ((20 < (quota_retry_at readers 20 (codes "slow down")).0)
      × ((quota_retry_at readers 20 (codes "slow down")).0 ≤ 20 + quota_max_horizon))
    ⊎ (quota_retry_at readers 20 (codes "slow down") ≡ (0, "bounded_ttl_probe"))
quota_retry_at_bounds_example = quota_retry_at_bounds readers 20 (codes "slow down")

record_upstream_failure-guard_example :
    (guard_executor_quota 21 "a" "m"
      (record_upstream_failure rune decode_limit readers 20 21 "a" "m" 429 "{}" [])).1
    ≡ true
unfolding trim_space classify_chat_failure chat_error_fields get any contains to_lower join
    classify_fields cooldown_sweep_locked keep hold_end quota_retry_at parse_int64
record_upstream_failure-guard_example =
    record_upstream_failure-guard rune decode_limit readers 20 21 "a" "m" 429 "{}" [] empty-IsTable
      (omega arith) refl refl refl

record_upstream_failure-guard_other_example :
    (guard_executor_quota 21 "a" "n"
      (record_upstream_failure rune decode_limit readers 20 21 "a" "m" 429 "{}" [])).1
    ≡ (guard_executor_quota 21 "a" "n" []).1
unfolding trim_space classify_chat_failure chat_error_fields get any contains to_lower join
    classify_fields cooldown_sweep_locked keep
record_upstream_failure-guard_other_example =
    record_upstream_failure-guard_other rune decode_limit readers 20 21 "a" "m" 429 "{}" [] "a" "n"
      empty-IsTable (omega arith) (ground arith)
      (inr (ground (arith, string_eq.beq_iff (trim_space "n") (trim_space "m"))))
