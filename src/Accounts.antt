-- ===== src/Accounts.antt =====
-- The summaries of an account that billing reports: `creditsSummary` and `checkinSummary` of
-- workbuddy/management.go, and `isCreditsExhausted` of workbuddy/billing.go.
use workbuddy_cpa_plugin.Base.{
  ℕ, Bool, true, false, ◌||◌, Option, none, some, String, ltb, if◌then◌else◌,
}
use workbuddy_cpa_plugin.Base.Int.{ℤ, is_pos}
use workbuddy_cpa_plugin.Base.Text.{codes, to_lower, trim_space, runes_eq, is_suffix}

-- The fields that the modelled code reads; `packages` is the length of the package list.
pub record CreditsSummary : Type 0 where
  pub total_remain : ℤ
  pub total_used : ℤ
  pub total_size : ℤ
  pub packages : ℕ

pub record CheckinSummary : Type 0 where
  pub active : Bool
  pub today_checked_in : Bool
  pub streak_days : ℤ
  pub daily_credit : ℤ

pub is_credits_exhausted : Option CreditsSummary → Bool
is_credits_exhausted none = false
is_credits_exhausted (some cr) =
    if is_pos cr.total_remain
    then false
    else if is_pos cr.total_used || is_pos cr.total_size
    then true
    else ltb 0 cr.packages

-- The parts of `storedAuth` that the modelled code reads.
pub record StoredAuth : Type 0 where
  pub domain : String
  pub uid : String
  pub nickname : String

-- `isGlobalDomain` of workbuddy/billing.go; `unicode` lowers the runes beyond ASCII.
unfoldable pub is_global_domain : (ℕ → ℕ) → String → Bool
is_global_domain unicode domain =
    let d = to_lower unicode (codes (trim_space domain)) in
    runes_eq d (codes "workbuddy.ai") || is_suffix d (codes ".workbuddy.ai")
