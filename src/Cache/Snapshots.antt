-- ===== src/Cache/Snapshots.antt =====
-- Updates of the account cache, workbuddy/cache.go, behind a check-in that has stored its status.
use workbuddy_cpa_plugin.Base.{
  ℕ, ◌<◌, ◌≡◌, refl, ◌⊎◌, inl, inr, true, false, List, [], ◌∷◌, none, some, String, arith, ◌==◌,
  string_eq, ltb, Bool-cases, Option-cases, beq_self, All, Option, nat_eq, not, ap, ◌∙◌,
}
use workbuddy_cpa_plugin.Base.Maps.{
  lookup, insert, delete, lookup-insert, AllEntries, AllEntries-insert, AllEntries-lookup,
  AllEntries-keep,
}
use workbuddy_cpa_plugin.Accounts.{CheckinSummary}
use workbuddy_cpa_plugin.Cache.{
  AccountCache, AccountCacheEntry, merge_checkin_cache, store_account_snapshot, with_newer_checkin,
  invalidate_credits,
}

-- The cache, and the calls of `invalidateCredits` that have loaded an entry and not stored one yet: a
-- number for each, the account, and what was loaded.
pub record Shared : Type 0 where
  pub cache : AccountCache
  pub loaded : List (ℕ × (String × Option AccountCacheEntry))

-- A snapshot of a dashboard fetch, or a step of `invalidateCredits`: its load, and its store at a time.
pub data Update : Type 0 where
  fetches : String → AccountCacheEntry → Update
  loads : ℕ → String → Update
  stores : ℕ → ℕ → Update

abbrev pub update : Update → Shared → Shared
update (fetches k e) s = record s { cache = (store_account_snapshot k e s.cache).0 }
update (loads i k) s = record s { loaded = insert i (k, lookup k s.cache) s.loaded }
update (stores i now) s = elim (lookup i s.loaded) [
  | none ↦ s
  | some p ↦ record { cache = invalidate_credits now p.0 p.1 s.cache; loaded = delete i s.loaded }
]

abbrev pub updates : List Update → Shared → Shared
updates [] s = s
updates (u ∷ us) s = updates us (update u s)

-- The update is no snapshot of the account whose status was asked for at the time or later.
abbrev pub IsBefore : String → ℕ → Update → Type 0
IsBefore k at (fetches j e) = ((j == k) ≡ false) ⊎ (e.checkin_at < at)
IsBefore k at (loads i j) = Unit
IsBefore k at (stores i now) = Unit

-- What was loaded is of another account.
abbrev pub IsOther : String → String × Option AccountCacheEntry → Type 0
IsOther k p = (p.0 == k) ≡ false

-- The cache has this status of the account, from this time.
abbrev pub HasStatus : String → ℕ → CheckinSummary → AccountCache → Type 0
HasStatus k at ci m =
    (e : AccountCacheEntry) × (lookup k m ≡ some e) × (e.checkin ≡ some ci) × (e.checkin_at ≡ at)

module _ (k : String) (at : ℕ) (ci : CheckinSummary) where
  -- What was loaded is of another account, or has the status.
  abbrev IsSeen : String × Option AccountCacheEntry → Type 0
  IsSeen p =
      IsOther k p
      ⊎ ((e : AccountCacheEntry) × (p.1 ≡ some e) × (e.checkin ≡ some ci) × (e.checkin_at ≡ at))

  record IsKept (s : Shared) : Type 0 where
    has : HasStatus k at ci s.cache
    seen : AllEntries (λ _ p. IsSeen p) s.loaded

  insert-HasStatus :
      (j : String) (new : AccountCacheEntry) (m : AccountCache)
      → (j == k) ≡ false
      → HasStatus k at ci m
      → HasStatus k at ci (insert j new m)
  insert-HasStatus j new m other (e, there, status, time) =
      (e, ground (arith, there, other, lookup-insert j k new m), status, time)

  store_account_snapshot-HasStatus :
      (j : String) (new : AccountCacheEntry) (m : AccountCache)
      → IsBefore k at (fetches j new)
      → HasStatus k at ci m
      → HasStatus k at ci (store_account_snapshot j new m).0
  unfolding store_account_snapshot
  store_account_snapshot-HasStatus j new m before (e, there, status, time) =
      elim (Bool-cases (j == k)) [
        | inl own ↦
            let older : ltb new.checkin_at e.checkin_at ≡ true =
              ground (arith, before, own, time) in
            (
              record new { checkin = e.checkin; checkin_at = e.checkin_at },
              ground (
                arith,
                own,
                there,
                older,
                string_eq.beq_iff j k,
                lookup-insert j k (with_newer_checkin (lookup j m) new) m,
              ),
              status,
              time,
            )
        | inr other ↦
            insert-HasStatus j (with_newer_checkin (lookup j m) new) m other
              (e, there, status, time)
      ]

  store-HasStatus :
      (now : ℕ) (j : String) (old : Option AccountCacheEntry) (m : AccountCache)
      → IsSeen (j, old)
      → HasStatus k at ci m
      → HasStatus k at ci (invalidate_credits now j old m)
  unfolding invalidate_credits
  store-HasStatus now j none m seen h = h
  store-HasStatus now j (some v) m (inl other) h =
      insert-HasStatus j (record v { credits = none; fetched = now }) m other h
  store-HasStatus now j (some v) m (inr (w, same, status, time)) (e, there, before, stamp) =
      let value : v ≡ w = ground arith in
      elim (Bool-cases (j == k)) [
        | inl own ↦ (
          record v { credits = none; fetched = now },
          ground (arith, own, lookup-insert j k (record v { credits = none; fetched = now }) m),
          rw value status,
          rw value time,
        )
        | inr other ↦
            insert-HasStatus j (record v { credits = none; fetched = now }) m other
              (e, there, before, stamp)
      ]

  load-IsSeen : (j : String) (s : Shared) → HasStatus k at ci s.cache → IsSeen (j, lookup j s.cache)
  load-IsSeen j s (e, there, status, time) = elim (Bool-cases (j == k)) [
    | inl own ↦
        let same : j ≡ k = (string_eq.beq_iff j k).0 own in
        inr (e, ap (λ i. lookup i s.cache) same ∙ there, status, time)
    | inr other ↦ inl other
  ]

  others-IsSeen :
      (m : List (ℕ × (String × Option AccountCacheEntry)))
      → AllEntries (λ _ p. IsOther k p) m
      → AllEntries (λ _ p. IsSeen p) m
  others-IsSeen [] h = tt
  others-IsSeen ((i, p) ∷ m) h = (inl h.0, others-IsSeen m h.1)

  update-IsKept : (u : Update) (s : Shared) → IsBefore k at u → IsKept s → IsKept (update u s)
  update-IsKept (fetches j new) s before h = record {
    has = store_account_snapshot-HasStatus j new s.cache before h.has;
    seen = h.seen;
  }
  update-IsKept (loads i j) s before h = record {
    has = h.has;
    seen =
        AllEntries-insert (λ _ p. IsSeen p) i (j, lookup j s.cache) s.loaded (load-IsSeen j s h.has)
          h.seen;
  }
  update-IsKept (stores i now) s before h = elim (Option-cases (lookup i s.loaded)) [
    | inl absent ↦ rw (absent, update) h
    | inr (p, found) ↦
        rw (found, update)
          (record {
            has =
                store-HasStatus now p.0 p.1 s.cache
                  (AllEntries-lookup (λ _ p. IsSeen p) i p s.loaded h.seen found) h.has;
            seen = AllEntries-keep (λ _ p. IsSeen p) (λ j _. not (j == i)) s.loaded h.seen;
          })
  ]

  updates-IsKept :
      (us : List Update) (s : Shared) → All (IsBefore k at) us → IsKept s → IsKept (updates us s)
  updates-IsKept [] s before h = h
  updates-IsKept (u ∷ us) s before h =
      updates-IsKept us (update u s) before.1 (update-IsKept u s before.0 h)

  merge_checkin_cache-HasStatus :
      (m : AccountCache) → HasStatus k at ci (merge_checkin_cache at k ci m)
  unfolding merge_checkin_cache
  merge_checkin_cache-HasStatus m = elim (Option-cases (lookup k m)) [
    | inl absent ↦
        let new : AccountCacheEntry = record {
          checkin = some ci;
          checkin_at = at;
          credits = none;
          plan = "";
          fetched = 0;
        } in
        (new, ground (arith, absent, beq_self k, lookup-insert k k new m), refl, refl)
    | inr (e, there) ↦
        let new : AccountCacheEntry = record e { checkin = some ci; checkin_at = at } in
        (new, ground (arith, there, beq_self k, lookup-insert k k new m), refl, refl)
  ]

  -- The status that a check-in stores stays: no later series of snapshots, all asked for before it, and
  -- of loads and stores that declare credits out of date, for any accounts and in any interleaving,
  -- replaces it, if no such call had loaded this account's entry before and not stored it yet.
  pub updates-merge_checkin_cache :
      (us : List Update) (s : Shared)
      → All (IsBefore k at) us
      → AllEntries (λ _ p. IsOther k p) s.loaded
      → HasStatus k at ci
          (updates us (record s { cache = merge_checkin_cache at k ci s.cache })).cache
  updates-merge_checkin_cache us s before none_open =
      (updates-IsKept us (record s { cache = merge_checkin_cache at k ci s.cache }) before
        (record {
          has = merge_checkin_cache-HasStatus s.cache;
          seen = others-IsSeen s.loaded none_open;
        })).has
