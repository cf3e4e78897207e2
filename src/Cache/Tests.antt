-- ===== src/Cache/Tests.antt =====
-- The theorems on the account cache at concrete caches.
use workbuddy_cpa_plugin.Base.{
  ℕ, ◌≤◌, refl, inl, inr, true, List, [], ◌∷◌, none, some, arith, length, string_eq,
}
use workbuddy_cpa_plugin.Base.Int.{pos}
use workbuddy_cpa_plugin.Base.Maps.{Distinct, lookup, keep}
use workbuddy_cpa_plugin.Accounts.{CheckinSummary}
use workbuddy_cpa_plugin.Cache.{
  AccountCache, AccountCacheEntry, prune_account_cache_soft_cap, merge_checkin_cache, delete_first,
  by_age, insert_by_age,
}
use workbuddy_cpa_plugin.Cache.Pruned.{
  length-prune_account_cache_soft_cap, prune_account_cache_soft_cap-oldest,
}
use workbuddy_cpa_plugin.Cache.Snapshots.{
  Shared, Update, fetches, loads, stores, updates, HasStatus, updates-merge_checkin_cache,
}

abbrev fetched_at : ℕ → AccountCacheEntry
fetched_at t = record { checkin = none; checkin_at = t; credits = none; plan = ""; fetched = t }

abbrev three : AccountCache
three = ("a", fetched_at 30) ∷ ("b", fetched_at 10) ∷ ("c", fetched_at 20) ∷ []

abbrev checked_in : CheckinSummary
checked_in = record {
  active = true;
  today_checked_in = true;
  streak_days = pos 3;
  daily_credit = pos 100;
}

three-Distinct : Distinct three
unfolding lookup
three-Distinct = (refl, (refl, (refl, tt)))

length-prune_account_cache_soft_cap_example : length (prune_account_cache_soft_cap 2 three) ≤ 2
length-prune_account_cache_soft_cap_example =
    length-prune_account_cache_soft_cap 2 three (omega arith) three-Distinct

prune_account_cache_soft_cap-oldest_example : (fetched_at 10).fetched ≤ (fetched_at 30).fetched
unfolding prune_account_cache_soft_cap lookup keep by_age delete_first insert_by_age
prune_account_cache_soft_cap-oldest_example =
    prune_account_cache_soft_cap-oldest 2 three "b" "a" (fetched_at 10) (fetched_at 30)
      three-Distinct refl refl refl refl

abbrev late_flights : List Update
late_flights =
    fetches "a" (fetched_at 5) ∷ loads 1 "a" ∷ fetches "b" (fetched_at 70) ∷ stores 1 60 ∷ []

abbrev shared : Shared
shared = record { cache = three; loaded = (0, ("b", some (fetched_at 10))) ∷ [] }

updates-merge_checkin_cache_example :
    HasStatus "a" 50 checked_in
      (updates late_flights
        (record shared { cache = merge_checkin_cache 50 "a" checked_in three })).cache
updates-merge_checkin_cache_example =
    updates-merge_checkin_cache "a" 50 checked_in late_flights shared
      (inr (omega arith), (tt, (inl refl, (tt, tt)))) (refl, tt)
