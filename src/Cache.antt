-- ===== src/Cache.antt =====
-- The account cache of workbuddy/cache.go, with `mergeCheckinCache` of workbuddy/checkin.go and
-- `invalidateCredits` of workbuddy/lifecycle.go. A compare-and-swap loop ends with one atomic update,
-- which is what stands here; `invalidateCredits` loads and stores without one, in two steps.
pub mod Soft
pub mod Pruned
pub mod Snapshots
mod Tests
use workbuddy_cpa_plugin.Base.{
  ℕ, ◌-◌, Bool, true, false, List, [], ◌∷◌, Option, none, some, String, if◌then◌else◌, string_eq,
  length, ltb, leb,
}
use workbuddy_cpa_plugin.Base.Maps.{lookup, insert, delete}
use workbuddy_cpa_plugin.Accounts.{CheckinSummary, CreditsSummary}

pub record AccountCacheEntry : Type 0 where
  pub checkin : Option CheckinSummary
  pub checkin_at : ℕ
  pub credits : Option CreditsSummary
  pub plan : String
  pub fetched : ℕ

abbrev pub AccountCache : Type 0
AccountCache = List (String × AccountCacheEntry)

abbrev pub account_cache_soft_cap : ℕ
account_cache_soft_cap = 256

-- `mergeCheckinCache` at the time `observed`: the credits keep their age.
unfoldable pub merge_checkin_cache : ℕ → String → CheckinSummary → AccountCache → AccountCache
merge_checkin_cache observed auth_id ci cache = elim (lookup auth_id cache) [
  | none ↦
      insert auth_id
        (record {
          checkin = some ci;
          checkin_at = observed;
          credits = none;
          plan = "";
          fetched = 0;
        })
        cache
  | some cached ↦ insert auth_id (record cached { checkin = some ci; checkin_at = observed }) cache
]

-- The snapshot with a check-in status that was read later than its own.
abbrev pub with_newer_checkin : Option AccountCacheEntry → AccountCacheEntry → AccountCacheEntry
with_newer_checkin none snapshot = snapshot
with_newer_checkin (some cached) snapshot =
    if ltb snapshot.checkin_at cached.checkin_at
    then record snapshot { checkin = cached.checkin; checkin_at = cached.checkin_at }
    else snapshot

-- `storeAccountSnapshot`: the cache, and the entry that was stored.
unfoldable pub store_account_snapshot :
    String → AccountCacheEntry → AccountCache → AccountCache × AccountCacheEntry
store_account_snapshot auth_id snapshot cache =
    let next = with_newer_checkin (lookup auth_id cache) snapshot in
    (insert auth_id next cache, next)

-- The store of `invalidateCredits` at the time `now`, given what its load found: other calls may have
-- changed the cache in between.
unfoldable pub invalidate_credits :
    ℕ → String → Option AccountCacheEntry → AccountCache → AccountCache
invalidate_credits now auth_id none cache = cache
invalidate_credits now auth_id (some e) cache =
    insert auth_id (record e { credits = none; fetched = now }) cache

-- The stale-while-error rule of `cachedAccountDetails`: what a failed fetch leaves empty comes from
-- the entry before it.
unfoldable pub carry_over : Option AccountCacheEntry → AccountCacheEntry → AccountCacheEntry
carry_over none fetched = fetched
carry_over (some prev) fetched = record {
  checkin = elim fetched.checkin [ none ↦ prev.checkin | some ci ↦ some ci ];
  checkin_at = elim fetched.checkin [ none ↦ prev.checkin_at | some _ ↦ fetched.checkin_at ];
  credits = elim fetched.credits [ none ↦ prev.credits | some cr ↦ some cr ];
  plan = elim fetched.plan [ String.[] ↦ prev.plan | String.◌∷◌ _ _ ↦ fetched.plan ];
  fetched = fetched.fetched;
}

-- Keys with their fetch times, oldest first: the list that `pruneAccountCacheSoftCap` sorts.
unfoldable pub insert_by_age : String → ℕ → List (String × ℕ) → List (String × ℕ)
insert_by_age k at [] = (k, at) ∷ []
insert_by_age k at ((j, t) ∷ items) =
    if leb at t then (k, at) ∷ (j, t) ∷ items else (j, t) ∷ insert_by_age k at items

unfoldable pub by_age : AccountCache → List (String × ℕ)
by_age [] = []
by_age ((k, e) ∷ cache) = insert_by_age k e.fetched (by_age cache)

unfoldable pub delete_first : ℕ → List (String × ℕ) → AccountCache → AccountCache
delete_first n [] cache = cache
delete_first n ((k, _) ∷ items) cache =
    if ltb 0 n then delete_first (n - 1) items (delete k cache) else cache

-- `pruneAccountCacheSoftCap`: an entry with an empty key goes, and then the oldest beyond the cap.
unfoldable pub prune_account_cache_soft_cap : ℕ → AccountCache → AccountCache
unfolding delete_first by_age insert_by_age
prune_account_cache_soft_cap bound cache =
    let named = delete "" cache in
    if leb bound 0
    then cache
    else if leb (length named) bound
    then named
    else delete_first (length named - bound) (by_age named) named
