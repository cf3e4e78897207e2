-- ===== src/Cooldown/Tests.antt =====
-- The theorems on the hold table at concrete tables.
use workbuddy_cpa_plugin.Base.{
  ℕ, ◌+◌, ◌≡◌, refl, inl, inr, true, false, List, [], ◌∷◌, none, some, arith, if◌then◌else◌, ◌==◌,
  ◌&&◌, length, is_some,
}
use workbuddy_cpa_plugin.Base.Maps.{Distinct, lookup}
use workbuddy_cpa_plugin.Base.Text.{trim_space, is_empty}
use workbuddy_cpa_plugin.Base.Int.{pos, is_pos}
use workbuddy_cpa_plugin.Accounts.{CreditsSummary}
use workbuddy_cpa_plugin.Cooldown.{
  Table, ModelCooldownKey, ModelCooldownEntry, ChatFailure, CooldownReason, shared_credits,
  rate_limit, call_quota, QuotaScope, account_scope, model_scope, pair_key, key_eq, is_shared,
  hold_key, mark_quota_freeze, quota_freeze_for, clear_model_cooldown, observe_quota_credits,
}
use workbuddy_cpa_plugin.Cooldown.Entries.{IsTable, IsEntry}
use workbuddy_cpa_plugin.Cooldown.View.{held, or_else, quota_freeze_for-held, held-quota_freeze_for}
use workbuddy_cpa_plugin.Cooldown.Marking.{Survives, mark_quota_freeze-Survives}
use workbuddy_cpa_plugin.Cooldown.Blocking.{mark_quota_freeze-quota_freeze_for}
use workbuddy_cpa_plugin.Cooldown.Clearing.{
  is_cleared, clear_model_cooldown-held, observe_quota_credits-held,
}
use workbuddy_cpa_plugin.Cooldown.History.{Call, marks, asks, clears, observes, run, run-IsTable}

-- A hold of the reason, marked at time 10 and ending at time 1000.
abbrev hold_of : CooldownReason → QuotaScope → ModelCooldownEntry
hold_of reason scope = record {
  reason = reason;
  scope = scope;
  until = 1000;
  next_probe_at = 1000;
  occurred_at = 10;
  updated_at = 10;
  recovery_condition = "upstream_reset";
  evidence = "free quota";
}

abbrev two_holds : Table
two_holds =
    (pair_key "a" "m", hold_of rate_limit model_scope)
    ∷ (pair_key "a" "", hold_of shared_credits account_scope)
    ∷ []

abbrev call_failure : ChatFailure
call_failure = record {
  reason = call_quota;
  scope = model_scope;
  evidence = "calls";
  credential_invalid = false;
}

abbrev balance : CreditsSummary
balance = record { total_remain = pos 5; total_used = pos 1; total_size = pos 6; packages = 1 }

abbrev calls : List (ℕ × Call)
calls =
    (1, marks "a" "m" call_failure 2000 "upstream_reset")
    ∷ (0, asks " a " "m")
    ∷ (5, observes "a" (some balance))
    ∷ (5000, clears "a" "m")
    ∷ []

two_holds-Distinct : Distinct two_holds
unfolding lookup
two_holds-Distinct = (refl, (refl, tt))

hold_of-IsEntry : IsEntry 20 (pair_key "a" "m") (hold_of rate_limit model_scope)
unfolding trim_space
hold_of-IsEntry = record {
  named = refl;
  trimmed_auth = refl;
  trimmed_model = refl;
  caused = refl;
  scoped = inr (refl, refl);
  probed = refl;
  since = omega arith;
  past = omega arith;
  future = omega arith;
  bounded = omega arith;
}

account_hold-IsEntry : IsEntry 20 (pair_key "a" "") (hold_of shared_credits account_scope)
unfolding trim_space
account_hold-IsEntry = record {
  named = refl;
  trimmed_auth = refl;
  trimmed_model = refl;
  caused = refl;
  scoped = inl (refl, refl, refl);
  probed = refl;
  since = omega arith;
  past = omega arith;
  future = omega arith;
  bounded = omega arith;
}

two_holds-IsTable : IsTable 20 two_holds
two_holds-IsTable = record {
  distinct = two_holds-Distinct;
  small = omega arith;
  entries = (hold_of-IsEntry, (account_hold-IsEntry, tt));
}

run-IsTable_example : IsTable (run 20 calls two_holds).0 (run 20 calls two_holds).1
run-IsTable_example = run-IsTable 20 calls two_holds two_holds-IsTable

call_failure-named : is_some (hold_key " a " "m" call_failure) ≡ true
unfolding hold_key trim_space
call_failure-named = refl

mark_quota_freeze-quota_freeze_for_example :
    is_some
      (quota_freeze_for 20 " a " "m"
        (mark_quota_freeze 20 " a " "m" call_failure 2000 "upstream_reset" two_holds)).1
    ≡ true
mark_quota_freeze-quota_freeze_for_example =
    mark_quota_freeze-quota_freeze_for 20 " a " "m" call_failure 2000 "upstream_reset" two_holds
      two_holds-IsTable call_failure-named (omega arith)

quota_freeze_for-held_example : (quota_freeze_for 20 "a" "m" two_holds).1 ≡ (
    if is_empty (trim_space "a")
    then none
    else or_else
        (held 20 two_holds (pair_key (trim_space "a") ""))
        (held 20 two_holds (pair_key (trim_space "a") (trim_space "m"))))
quota_freeze_for-held_example = quota_freeze_for-held 20 "a" "m" two_holds two_holds-Distinct

held-quota_freeze_for_example :
    held 20 (quota_freeze_for 20 "a" "m" two_holds).0 (pair_key "a" "m")
    ≡ held 20 two_holds (pair_key "a" "m")
held-quota_freeze_for_example =
    held-quota_freeze_for 20 "a" "m" two_holds (pair_key "a" "m") two_holds-Distinct

mark_quota_freeze-Survives_example :
    Survives 20 two_holds
      (pair_key "a" "m")
      (hold_of rate_limit model_scope)
      (mark_quota_freeze 20 "a" "m" call_failure 500 "upstream_reset" two_holds)
unfolding lookup
mark_quota_freeze-Survives_example =
    mark_quota_freeze-Survives 20 "a" "m" call_failure 500 "upstream_reset" two_holds
      (pair_key "a" "m") (hold_of rate_limit model_scope) two_holds-Distinct refl

clear_model_cooldown-held_example :
    ((j : ModelCooldownKey)
      → held 20 (clear_model_cooldown "a" "m" two_holds).0 j
        ≡ (if is_cleared "a" "m" j then none else held 20 two_holds j))
    × (length two_holds
        ≡ length (clear_model_cooldown "a" "m" two_holds).0
          + (clear_model_cooldown "a" "m" two_holds).1)
clear_model_cooldown-held_example =
    clear_model_cooldown-held 20 "a" "m" two_holds two_holds-Distinct

observe_quota_credits-held_example :
    held 20 (observe_quota_credits "a" (some balance) two_holds) (pair_key "a" "")
    ≡ (elim (held 20 two_holds (pair_key "a" "")) [
      | none ↦ none
      | some v ↦
          if is_pos balance.total_remain
            && pair_key "a" "" == pair_key (trim_space "a") ""
            && is_shared v.reason
          then none
          else some v
    ])
observe_quota_credits-held_example =
    observe_quota_credits-held 20 "a" balance two_holds (pair_key "a" "") two_holds-Distinct
