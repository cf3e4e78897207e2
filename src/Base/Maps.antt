-- ===== src/Base/Maps.antt =====
-- Go maps as association lists. The order of the list stands for the order in which the runtime
-- happens to walk the map; every law holds for each order.
use Prim.Native.Nat.{◌+◌, ◌≤◌}
use mathlib.Core.Path.{◌≡◌, refl, subst₂}
use mathlib.Core.Logic.{inl, inr}
use mathlib.Core.Bool.{Bool, true, not}
use mathlib.Core.List.{List, [], ◌∷◌}
use mathlib.Core.Option.{Option, none, some}
use native.Mathlib.Omega.{arith}
use workbuddy_cpa_plugin.Base.Tests.{if◌then◌else◌, Eq, ◌==◌, Bool-cases}
use workbuddy_cpa_plugin.Base.Lists.{length, is_some}

abbrev pub passing {ℓ} : {V : Type ℓ} → (V → Bool) → Option V → Option V
passing p none = none
passing p (some v) = if p v then some v else none

module _ {ℓ κ} {K : Type ℓ} {V : Type κ} where
  -- The entries that pass a test on key and value.
  unfoldable pub keep : (K → V → Bool) → List (K × V) → List (K × V)
  keep p [] = []
  keep p ((k, v) ∷ m) = let rest = keep p m in if p k v then (k, v) ∷ rest else rest

  pub length-keep-le : (p : K → V → Bool) (m : List (K × V)) → length (keep p m) ≤ length m
  unfolding keep
  length-keep-le p [] = omega arith
  length-keep-le p ((k, v) ∷ m) = ground (arith, length-keep-le p m)

module _ {ℓ κ} {K : Type ℓ} ⦃e : Eq K⦄ {V : Type κ} where
  unfoldable pub lookup : K → List (K × V) → Option V
  lookup k [] = none
  lookup k ((j, v) ∷ m) = if j == k then some v else lookup k m

  unfoldable pub insert : K → V → List (K × V) → List (K × V)
  insert k v [] = (k, v) ∷ []
  insert k v ((key, old) ∷ m) = if key == k then (k, v) ∷ m else (key, old) ∷ insert k v m

  abbrev pub delete : K → List (K × V) → List (K × V)
  delete k = keep (λ j _. not (j == k))

  -- No key stands twice.
  abbrev pub Distinct : List (K × V) → Type κ
  Distinct [] = Unit
  Distinct ((k, v) ∷ m) = (lookup k m ≡ none) × Distinct m

  pub lookup-insert :
      (k j : K) (v : V) (m : List (K × V))
      → lookup j (insert k v m) ≡ (if k == j then some v else lookup j m)
  unfolding lookup insert
  lookup-insert k j v [] = refl
  lookup-insert k j v ((key, old) ∷ m) =
      ground (arith, e.beq_iff k j, e.beq_iff key k, e.beq_iff key j, lookup-insert k j v m)

  pub lookup-keep :
      (p : K → V → Bool) (j : K) (m : List (K × V))
      → Distinct m
      → lookup j (keep p m) ≡ passing (p j) (lookup j m)
  unfolding lookup keep
  lookup-keep p j [] d = refl
  lookup-keep p j ((i, w) ∷ m) d = ground (arith, e.beq_iff i j, lookup-keep p j m d.1)

  pub lookup-delete :
      (k j : K) (m : List (K × V))
      → Distinct m
      → lookup j (delete k m) ≡ (if j == k then none else lookup j m)
  lookup-delete k j m d = ground (arith, lookup-keep (λ i _. not (i == k)) j m d)

  pub length-insert :
      (k : K) (v : V) (m : List (K × V))
      → length (insert k v m) ≡ (if is_some (lookup k m) then length m else length m + 1)
  unfolding lookup insert
  length-insert k v [] = refl
  length-insert k v ((i, w) ∷ m) = ground (arith, length-insert k v m)

  pub Distinct-insert : (k : K) (v : V) (m : List (K × V)) → Distinct m → Distinct (insert k v m)
  unfolding insert lookup
  Distinct-insert k v [] d = (refl, tt)
  Distinct-insert k v ((i, w) ∷ m) d =
      ground (arith, e.beq_iff i k, e.beq_iff k i, lookup-insert k i v m, Distinct-insert k v m d.1)

  pub Distinct-keep : (p : K → V → Bool) (m : List (K × V)) → Distinct m → Distinct (keep p m)
  unfolding keep
  Distinct-keep p [] d = d
  Distinct-keep p ((i, w) ∷ m) d = ground (arith, lookup-keep p i m d.1, Distinct-keep p m d.1)

  -- Deleting a key that is present takes out exactly one entry.
  pub length-delete :
      (k : K) (m : List (K × V))
      → Distinct m
      → length m ≡ length (delete k m) + (if is_some (lookup k m) then 1 else 0)
  unfolding lookup keep
  length-delete k [] d = omega arith
  length-delete k ((i, w) ∷ m) d = ground (arith, e.beq_iff i k, length-delete k m d.1)

module _ {ℓ κ μ} {K : Type ℓ} {V : Type κ} (P : K → V → Type μ) where
  abbrev pub AllEntries : List (K × V) → Type μ
  AllEntries [] = Unit
  AllEntries ((k, v) ∷ m) = P k v × AllEntries m

  pub AllEntries-keep : (p : K → V → Bool) (m : List (K × V)) → AllEntries m → AllEntries (keep p m)
  unfolding keep
  AllEntries-keep p [] h = h
  AllEntries-keep p ((k, v) ∷ m) h = elim (Bool-cases (p k v)) [
    | inl kept ↦ rw kept (h.0, AllEntries-keep p m h.1)
    | inr gone ↦ rw gone (AllEntries-keep p m h.1)
  ]

  -- What a filter keeps passes its test.
  pub AllEntries-keep_passing :
      (p : K → V → Bool) (m : List (K × V))
      → ((k : K) (v : V) → p k v ≡ true → P k v)
      → AllEntries (keep p m)
  unfolding keep
  AllEntries-keep_passing p [] h = tt
  AllEntries-keep_passing p ((k, v) ∷ m) h = elim (Bool-cases (p k v)) [
    | inl kept ↦ rw kept (h k v kept, AllEntries-keep_passing p m h)
    | inr gone ↦ rw gone (AllEntries-keep_passing p m h)
  ]

module _ {ℓ κ μ} {K : Type ℓ} ⦃e : Eq K⦄ {V : Type κ} (P : K → V → Type μ) where
  pub AllEntries-insert :
      (k : K) (v : V) (m : List (K × V)) → P k v → AllEntries P m → AllEntries P (insert k v m)
  unfolding insert
  AllEntries-insert k v [] p h = (p, tt)
  AllEntries-insert k v ((i, w) ∷ m) p h = elim (Bool-cases (i == k)) [
    | inl same ↦ rw same (p, h.1)
    | inr other ↦ rw other (h.0, AllEntries-insert k v m p h.1)
  ]

  pub AllEntries-lookup :
      (k : K) (v : V) (m : List (K × V)) → AllEntries P m → lookup k m ≡ some v → P k v
  unfolding lookup
  AllEntries-lookup k v [] h q = cc
  AllEntries-lookup k v ((i, w) ∷ m) h q = elim (Bool-cases (i == k)) [
    | inl same ↦ let value : w ≡ v = ground arith in subst₂ P ((e.beq_iff i k).0 same) value h.0
    | inr other ↦ AllEntries-lookup k v m h.1 (rw (other, lookup) at q)
  ]
