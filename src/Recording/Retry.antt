-- ===== src/Recording/Retry.antt =====
-- When a hold ends.
use workbuddy_cpa_plugin.Base.{
  ℕ, ◌+◌, ◌≤◌, ◌<◌, ◌≡◌, ◌⊎◌, List, Option, none, some, arith, string_eq, nat_eq,
}
use workbuddy_cpa_plugin.Base.Int.{ℤ}
use workbuddy_cpa_plugin.Base.Text.{trim_space, codes, parse_int64}
use workbuddy_cpa_plugin.Cooldown.{quota_max_horizon, second}
use workbuddy_cpa_plugin.Recording.{Readers, quota_retry_at, delay, epoch, only_valid, millisecond}

-- A time that is given lies after now and at most a day ahead.
abbrev Near : ℕ → Option ℕ → Type 0
Near now none = Unit {0}
Near now (some t) = (now < t) × (t ≤ now + quota_max_horizon)

seconds-Near : (now : ℕ) (n : Option ℤ) → Near now (delay now second n)
seconds-Near now n = ground arith

milliseconds-Near : (now : ℕ) (n : Option ℤ) → Near now (delay now millisecond n)
milliseconds-Near now n = ground arith

only_valid-Near : (now : ℕ) (t : Option ℕ) → Near now (only_valid now t)
only_valid-Near now t = ground arith

epoch-Near : (now : ℕ) (n : Option ℤ) → Near now (epoch now n)
epoch-Near now n = ground arith

-- Whatever the upstream sends, the end that is read from it lies after now and at most 24 hours
-- ahead, or nothing was read and the hold is a bounded probe.
pub quota_retry_at_bounds :
    (r : Readers) (now : ℕ) (text : List ℕ)
    → ((now < (quota_retry_at r now text).0)
        × ((quota_retry_at r now text).0 ≤ now + quota_max_horizon))
      ⊎ (quota_retry_at r now text ≡ (0, "bounded_ttl_probe"))
unfolding quota_retry_at
quota_retry_at_bounds r now text =
    let s = trim_space (r.header "Retry-After") in
    ground (
      arith,
      seconds-Near now (parse_int64 (codes s)),
      only_valid-Near now (r.parse_http_time s),
      milliseconds-Near now (parse_int64 (codes (trim_space (r.header "Retry-After-Ms")))),
      epoch-Near now (parse_int64 (codes (trim_space (r.header "X-RateLimit-Reset")))),
      only_valid-Near now (r.reset_copy text),
    )
