-- ===== src/Cooldown/History.antt =====
-- Histories of calls on the table, each some time after the one before it.
use workbuddy_cpa_plugin.Base.{ℕ, ◌+◌, List, [], ◌∷◌, Option, String, arith}
use workbuddy_cpa_plugin.Accounts.{CreditsSummary}
use workbuddy_cpa_plugin.Cooldown.{
  Table, ChatFailure, CooldownReason, mark_quota_freeze, mark_model_cooldown, quota_freeze_for,
  cooling_model_set_for, clear_model_cooldown, observe_quota_credits,
}
use workbuddy_cpa_plugin.Cooldown.Entries.{IsTable, later-IsTable}
use workbuddy_cpa_plugin.Cooldown.Invariant.{
  mark_quota_freeze-IsTable, mark_model_cooldown-IsTable, quota_freeze_for-IsTable,
  cooling_model_set_for-IsTable, clear_model_cooldown-IsTable, observe_quota_credits-IsTable,
}

-- The calls that the rest of the plugin makes, with their arguments.
pub data Call : Type 0 where
  marks : String → String → ChatFailure → ℕ → String → Call
  cools : String → String → CooldownReason → Call
  asks : String → String → Call
  lists : String → Call
  clears : String → String → Call
  observes : String → Option CreditsSummary → Call

pub step : ℕ → Call → Table → Table
step now (marks auth_id model f until recovery) t =
    mark_quota_freeze now auth_id model f until recovery t
step now (cools auth_id model reason) t = mark_model_cooldown now auth_id model reason t
step now (asks auth_id model) t = (quota_freeze_for now auth_id model t).0
step now (lists auth_id) t = (cooling_model_set_for now auth_id t).0
step now (clears auth_id model) t = (clear_model_cooldown auth_id model t).0
step now (observes auth_id cr) t = observe_quota_credits auth_id cr t

-- The table, and the clock, after a list of calls with the time that passes before each.
pub run : ℕ → List (ℕ × Call) → Table → ℕ × Table
run now [] t = (now, t)
run now ((wait, c) ∷ cs) t = run (now + wait) cs (step (now + wait) c t)

step-IsTable : (now : ℕ) (c : Call) (t : Table) → IsTable now t → IsTable now (step now c t)
unfolding step
step-IsTable now (marks auth_id model f until recovery) t w =
    mark_quota_freeze-IsTable now auth_id model f until recovery t w
step-IsTable now (cools auth_id model reason) t w =
    mark_model_cooldown-IsTable now auth_id model reason t w
step-IsTable now (asks auth_id model) t w = quota_freeze_for-IsTable now auth_id model t w
step-IsTable now (lists auth_id) t w = cooling_model_set_for-IsTable now auth_id t w
step-IsTable now (clears auth_id model) t w = clear_model_cooldown-IsTable now auth_id model t w
step-IsTable now (observes auth_id cr) t w = observe_quota_credits-IsTable now auth_id cr t w

-- If the table is well formed at the start, then after any list of calls it is well formed at the
-- time then reached: at most 4096 entries, no key twice, each hold caused by a failure, ending
-- after its last mark and at most 24 hours after it, and account-wide only for shared credits.
pub run-IsTable :
    (now : ℕ) (cs : List (ℕ × Call)) (t : Table)
    → IsTable now t
    → IsTable (run now cs t).0 (run now cs t).1
unfolding run
run-IsTable now [] t w = w
run-IsTable now ((wait, c) ∷ cs) t w =
    run-IsTable (now + wait) cs (step (now + wait) c t)
      (step-IsTable (now + wait) c t (later-IsTable now (now + wait) t (omega arith) w))
