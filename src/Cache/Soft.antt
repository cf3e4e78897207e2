-- ===== src/Cache/Soft.antt =====
-- The soft cap of workbuddy/cache.go: what `pruneAccountCacheSoftCap` leaves.
use workbuddy_cpa_plugin.Base.{
  ℕ, ◌+◌, ◌≤◌, ◌≡◌, refl, ◌∙◌, inl, inr, List, [], ◌∷◌, Option, none, some, String, arith,
  if◌then◌else◌, ◌==◌, string_eq, length, leb, Bool-cases, ap,
}
use workbuddy_cpa_plugin.Base.Maps.{lookup, Distinct, AllEntries}
use workbuddy_cpa_plugin.Cache.{AccountCache, AccountCacheEntry, insert_by_age, by_age}

abbrev pub age_of : Option AccountCacheEntry → Option ℕ
age_of none = none
age_of (some e) = some e.fetched

-- Oldest first.
abbrev pub IsSorted : List (String × ℕ) → Type 0
IsSorted [] = Unit
IsSorted ((k, t) ∷ items) = AllEntries (λ _ u. t ≤ u) items × IsSorted items

lookup-insert_by_age :
    (k j : String) (t : ℕ) (items : List (String × ℕ))
    → lookup k items ≡ none
    → lookup j (insert_by_age k t items) ≡ (if k == j then some t else lookup j items)
unfolding insert_by_age lookup
lookup-insert_by_age k j t [] fresh = refl
lookup-insert_by_age k j t ((i, u) ∷ items) fresh = ground (
  arith,
  string_eq.beq_iff i k,
  string_eq.beq_iff k j,
  string_eq.beq_iff i j,
  lookup-insert_by_age k j t items,
)

Distinct-insert_by_age :
    (k : String) (t : ℕ) (items : List (String × ℕ))
    → lookup k items ≡ none
    → Distinct items
    → Distinct (insert_by_age k t items)
unfolding insert_by_age lookup
Distinct-insert_by_age k t [] fresh d = (refl, tt)
Distinct-insert_by_age k t ((i, u) ∷ items) fresh d = ground (
  arith,
  string_eq.beq_iff i k,
  string_eq.beq_iff k i,
  lookup-insert_by_age k i t items,
  Distinct-insert_by_age k t items,
)

later_all :
    (t u : ℕ) (items : List (String × ℕ))
    → t ≤ u
    → AllEntries (λ _ v. u ≤ v) items
    → AllEntries (λ _ v. t ≤ v) items
later_all t u [] h a = tt
later_all t u ((j, v) ∷ items) h a = (omega (arith, h, a.0), later_all t u items h a.1)

insert_by_age-all :
    (k : String) (t u : ℕ) (items : List (String × ℕ))
    → u ≤ t
    → AllEntries (λ _ v. u ≤ v) items
    → AllEntries (λ _ v. u ≤ v) (insert_by_age k t items)
unfolding insert_by_age
insert_by_age-all k t u [] h a = (h, tt)
insert_by_age-all k t u ((j, v) ∷ items) h a = elim (Bool-cases (leb t v)) [
  | inl first ↦ rw first (h, a)
  | inr later ↦ rw later (a.0, insert_by_age-all k t u items h a.1)
]

insert_by_age-IsSorted :
    (k : String) (t : ℕ) (items : List (String × ℕ))
    → IsSorted items
    → IsSorted (insert_by_age k t items)
unfolding insert_by_age
insert_by_age-IsSorted k t [] s = (tt, tt)
insert_by_age-IsSorted k t ((j, v) ∷ items) s = elim (Bool-cases (leb t v)) [
  | inl first ↦
      let le : t ≤ v = ground (arith, first) in rw first ((le, later_all t v items le s.0), s)
  | inr later ↦ rw later (
    insert_by_age-all k t v items (ground (arith, later)) s.0,
    insert_by_age-IsSorted k t items s.1,
  )
]

pub by_age-IsSorted : (m : AccountCache) → IsSorted (by_age m)
unfolding by_age
by_age-IsSorted [] = tt
by_age-IsSorted ((k, e) ∷ m) = insert_by_age-IsSorted k e.fetched (by_age m) (by_age-IsSorted m)

pub lookup-by_age :
    (j : String) (m : AccountCache) → Distinct m → lookup j (by_age m) ≡ age_of (lookup j m)
unfolding by_age lookup
lookup-by_age j [] d = refl
lookup-by_age j ((k, e) ∷ m) d = ground (
  arith,
  lookup-by_age j m d.1,
  lookup-by_age k m d.1,
  lookup-insert_by_age k j e.fetched (by_age m),
  d.0,
)

pub Distinct-by_age : (m : AccountCache) → Distinct m → Distinct (by_age m)
unfolding by_age
Distinct-by_age [] d = tt
Distinct-by_age ((k, e) ∷ m) d =
    Distinct-insert_by_age k e.fetched (by_age m) (lookup-by_age k m d.1 ∙ ap age_of d.0)
      (Distinct-by_age m d.1)

length-insert_by_age :
    (k : String) (t : ℕ) (items : List (String × ℕ))
    → length (insert_by_age k t items) ≡ length items + 1
unfolding insert_by_age
length-insert_by_age k t [] = refl
length-insert_by_age k t ((j, v) ∷ items) = ground (arith, length-insert_by_age k t items)

pub length-by_age : (m : AccountCache) → length (by_age m) ≡ length m
unfolding by_age
length-by_age [] = refl
length-by_age ((k, e) ∷ m) =
    ground (arith, length-by_age m, length-insert_by_age k e.fetched (by_age m))
