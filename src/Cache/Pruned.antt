-- ===== src/Cache/Pruned.antt =====
-- What `pruneAccountCacheSoftCap` of workbuddy/cache.go leaves: its size, and which entries.
use workbuddy_cpa_plugin.Base.{
  ℕ, ◌+◌, ◌-◌, ◌≤◌, ◌<◌, ◌≡◌, inl, inr, true, false, not, List, [], ◌∷◌, none, some, String, arith,
  ◌==◌, string_eq, length, ltb, leb, is_some, Bool-cases, beq_self,
}
use workbuddy_cpa_plugin.Base.Maps.{
  lookup, delete, Distinct, lookup-delete, length-delete, Distinct-keep, AllEntries-lookup,
}
use workbuddy_cpa_plugin.Cache.{
  AccountCache, AccountCacheEntry, by_age, delete_first, prune_account_cache_soft_cap,
}
use workbuddy_cpa_plugin.Cache.Soft.{
  age_of, IsSorted, by_age-IsSorted, lookup-by_age, Distinct-by_age, length-by_age,
}

-- Deleting the first of a list of present keys takes out one entry for each.
length-delete_first :
    (n : ℕ) (items : List (String × ℕ)) (m : AccountCache)
    → Distinct items
    → Distinct m
    → ((j : String) → is_some (lookup j items) ≡ true → is_some (lookup j m) ≡ true)
    → n ≤ length items
    → length (delete_first n items m) + n ≡ length m
unfolding delete_first lookup
length-delete_first n [] m di dm present le = ground (arith, le)
length-delete_first n ((k, t) ∷ items) m di dm present le = elim (Bool-cases (ltb 0 n)) [
  | inr zero ↦ ground (arith, zero)
  | inl more ↦
      let still : (j : String)
          → is_some (lookup j items) ≡ true
          → is_some (lookup j (delete k m)) ≡ true =
        λ j h. ground (
          arith,
          h,
          di.0,
          present j,
          lookup-delete k j m dm,
          string_eq.beq_iff k j,
          string_eq.beq_iff j k,
        ) in
      let one = length-delete k m dm in
      ground (
        arith,
        more,
        one,
        present k,
        beq_self k,
        length-delete_first (n - 1) items (delete k m) di.1
            (Distinct-keep (λ j _. not (j == k)) m dm) still (ground (arith, le, more)),
      )
]

gone-delete_first :
    (n : ℕ) (items : List (String × ℕ)) (m : AccountCache) (k : String)
    → Distinct m
    → lookup k m ≡ none
    → lookup k (delete_first n items m) ≡ none
unfolding delete_first
gone-delete_first n [] m k dm gone = gone
gone-delete_first n ((j, t) ∷ items) m k dm gone = elim (Bool-cases (ltb 0 n)) [
  | inr zero ↦ rw zero gone
  | inl more ↦ rw more (
      gone-delete_first (n - 1) items (delete j m) k (Distinct-keep (λ i _. not (i == j)) m dm)
        (ground (arith, gone, lookup-delete j k m dm)))
]

same-delete_first :
    (n : ℕ) (items : List (String × ℕ)) (m : AccountCache) (k : String) (v : AccountCacheEntry)
    → Distinct m
    → lookup k (delete_first n items m) ≡ some v
    → lookup k m ≡ some v
unfolding delete_first
same-delete_first n [] m k v dm there = there
same-delete_first n ((j, t) ∷ items) m k v dm there = elim (Bool-cases (ltb 0 n)) [
  | inr zero ↦ ground (arith, zero, there)
  | inl more ↦
      let before =
        same-delete_first (n - 1) items (delete j m) k v (Distinct-keep (λ i _. not (i == j)) m dm)
          (ground (arith, more, there)) in
      ground (arith, before, lookup-delete j k m dm)
]

-- What is taken out is no younger than what stays.
delete_first-oldest :
    (n : ℕ) (items : List (String × ℕ)) (m : AccountCache) (j k : String)
    (old new : AccountCacheEntry)
    → IsSorted items
    → Distinct items
    → Distinct m
    → lookup j items ≡ age_of (lookup j m)
    → lookup k items ≡ age_of (lookup k m)
    → lookup j m ≡ some old
    → lookup j (delete_first n items m) ≡ none
    → lookup k (delete_first n items m) ≡ some new
    → old.fetched ≤ new.fetched
unfolding delete_first lookup
delete_first-oldest n [] m j k old new s di dm ej ek there gone stays = ground (arith, there, gone)
delete_first-oldest n ((i, t) ∷ items) m j k old new s di dm ej ek there gone stays =
    elim (Bool-cases (ltb 0 n)) [
      | inr zero ↦ ground (arith, zero, there, gone)
      | inl more ↦
          let rest = delete i m in
          let apart = Distinct-keep (λ l _. not (l == i)) m dm in
          let fewer = delete_first (n - 1) items rest in
          let stays' : lookup k fewer ≡ some new = ground (arith, more, stays) in
          let before = same-delete_first (n - 1) items rest k new apart stays' in
          let other : (i == k) ≡ false =
            ground (
              arith,
              before,
              lookup-delete i k m dm,
              string_eq.beq_iff i k,
              string_eq.beq_iff k i,
            ) in
          let found : lookup k m ≡ some new = ground (arith, before, lookup-delete i k m dm) in
          elim (Bool-cases (i == j)) [
            | inl first ↦
                let young =
                  AllEntries-lookup (λ _ u. t ≤ u) k new.fetched items s.0
                    (ground (arith, ek, found, other)) in
                ground (arith, young, ej, there, first)
            | inr later ↦
                delete_first-oldest (n - 1) items rest j k old new s.1 di.1 apart
                  (ground (
                    arith,
                    ej,
                    there,
                    later,
                    string_eq.beq_iff i j,
                    string_eq.beq_iff j i,
                    lookup-delete i j m dm,
                  ))
                  (ground (arith, ek, found, before, other))
                  (ground (
                    arith,
                    there,
                    later,
                    string_eq.beq_iff i j,
                    string_eq.beq_iff j i,
                    lookup-delete i j m dm,
                  ))
                  (ground (arith, more, gone)) stays'
          ]
    ]

present-by_age :
    (m : AccountCache) (j : String)
    → Distinct m
    → is_some (lookup j (by_age m)) ≡ true
    → is_some (lookup j m) ≡ true
present-by_age m j d h = ground (arith, h, lookup-by_age j m d)

-- Pruning a cache to a positive bound leaves at most so many entries.
pub length-prune_account_cache_soft_cap :
    (bound : ℕ) (m : AccountCache)
    → 0 < bound
    → Distinct m
    → length (prune_account_cache_soft_cap bound m) ≤ bound
unfolding prune_account_cache_soft_cap
length-prune_account_cache_soft_cap bound m positive d =
    let named = delete "" m in
    let apart = Distinct-keep (λ j _. not (j == "")) m d in
    let count =
      length-delete_first (length named - bound) (by_age named) named (Distinct-by_age named apart)
        apart (λ j. present-by_age named j apart) in
    ground (arith, positive, count, length-by_age named)

-- Pruning takes out the oldest: an account with a name whose entry goes was fetched no later than
-- any account whose entry stays.
pub prune_account_cache_soft_cap-oldest :
    (bound : ℕ) (m : AccountCache) (j k : String) (old new : AccountCacheEntry)
    → Distinct m
    → (j == "") ≡ false
    → lookup j m ≡ some old
    → lookup j (prune_account_cache_soft_cap bound m) ≡ none
    → lookup k (prune_account_cache_soft_cap bound m) ≡ some new
    → old.fetched ≤ new.fetched
unfolding prune_account_cache_soft_cap
prune_account_cache_soft_cap-oldest bound m j k old new d named there gone stays =
    let rest = delete "" m in
    let apart = Distinct-keep (λ j _. not (j == "")) m d in
    let found : lookup j rest ≡ some old = ground (arith, there, named, lookup-delete "" j m d) in
    elim (Bool-cases (leb bound 0)) [
      | inl off ↦ ground (arith, off, there, gone)
      | inr on ↦ elim (Bool-cases (leb (length rest) bound)) [
        | inl small ↦ ground (arith, on, small, found, gone)
        | inr large ↦
            delete_first-oldest (length rest - bound) (by_age rest) rest j k old new
              (by_age-IsSorted rest) (Distinct-by_age rest apart) apart (lookup-by_age j rest apart)
              (lookup-by_age k rest apart) found (ground (arith, on, large, gone))
              (ground (arith, on, large, stays))
      ]
    ]
