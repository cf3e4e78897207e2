-- ===== src/Models/Lengths.antt =====
-- What `normalizeContextLengths` and `effectiveModelContext` give.
use workbuddy_cpa_plugin.Base.{
  ℕ, ◌≡◌, refl, ◌≤◌, ◌<◌, ◌⊎◌, inl, inr, Bool, true, false, List, [], ◌∷◌, none, some, String,
  nat_eq, ◌==◌, ◌||◌, arith, leb, length, All, Bool-cases, Option-cases, ◌+◌, subst,
}
use workbuddy_cpa_plugin.Base.Lists.{any}
use workbuddy_cpa_plugin.Base.Int.{ℤ, pos, negsuc, is_pos}
use workbuddy_cpa_plugin.Models.Context.{
  max_context_window_value, collect, insert_sorted, sorted, normalize_context_lengths, Catalog,
  effective_model_context, nowhere, context_override_for_model,
}

abbrev pub holds : ℕ → List ℕ → Bool
holds n ns = any (λ m. m == n) ns

abbrev pub is_value : ℕ → ℤ → Bool
is_value n (pos m) = m == n
is_value n (negsuc m) = false

abbrev pub IsAscending : List ℕ → Type 0
IsAscending [] = Unit
IsAscending (n ∷ ns) = All (λ m. n < m) ns × IsAscending ns

abbrev pub IsLength : ℕ → Type 0
IsLength n = (0 < n) × (n ≤ max_context_window_value)

abbrev IsApart : List ℕ → Type 0
IsApart [] = Unit
IsApart (n ∷ ns) = (holds n ns ≡ false) × IsApart ns

-- What `collect` gives behind the values that were seen.
record IsCollected (seen : List ℕ) (values : List ℤ) (out : List ℕ) : Type 0 where
  lengths : All IsLength out
  fresh : All (λ m. holds m seen ≡ false) out
  apart : IsApart out
  count : length out ≡ length values

not_seen :
    (n : ℕ) (seen out : List ℕ)
    → All (λ m. holds m (n ∷ seen) ≡ false) out
    → (holds n out ≡ false) × All (λ m. holds m seen ≡ false) out
unfolding any
not_seen n seen [] h = (refl, tt)
not_seen n seen (m ∷ out) h =
    let (rest, others) = not_seen n seen out h.1 in
    (ground (arith, h.0, rest), (ground (arith, h.0), others))

collect_lem :
    (seen : List ℕ) (values : List ℤ) (out : List ℕ)
    → collect seen values ≡ some out
    → IsCollected seen values out
unfolding collect
collect_lem seen [] out e =
    let same : [] ≡ out = ground (arith, e) in
    subst (λ o. IsCollected seen [] o) same
      (record { lengths = tt; fresh = tt; apart = tt; count = refl })
collect_lem seen (negsuc n ∷ values) out e = cc
collect_lem seen (pos n ∷ values) out e = elim (Option-cases (collect (n ∷ seen) values)) [
  | inl stopped ↦ ground (arith, e, stopped)
  | inr (rest, found) ↦
      let before = collect_lem (n ∷ seen) values rest found in
      let (absent, fresh) = not_seen n seen rest before.fresh in
      let same : n ∷ rest ≡ out = ground (arith, e, found) in
      let new : holds n seen ≡ false = ground (arith, e, found) in
      let inside : IsLength n = ground (arith, e, found) in
      subst (λ o. IsCollected seen (pos n ∷ values) o) same
        (record {
          lengths = (inside, before.lengths);
          fresh = (new, fresh);
          apart = (absent, before.apart);
          count = ground (arith, before.count);
        })
]

holds-insert_sorted :
    (n k : ℕ) (ns : List ℕ) → holds k (insert_sorted n ns) ≡ (n == k || holds k ns)
unfolding insert_sorted any
holds-insert_sorted n k [] = refl
holds-insert_sorted n k (m ∷ ns) = ground (arith, holds-insert_sorted n k ns)

length-insert_sorted : (n : ℕ) (ns : List ℕ) → length (insert_sorted n ns) ≡ length ns + 1
unfolding insert_sorted
length-insert_sorted n [] = refl
length-insert_sorted n (m ∷ ns) = ground (arith, length-insert_sorted n ns)

module _ {κ} (P : ℕ → Type κ) where
  All-insert_sorted : (n : ℕ) (ns : List ℕ) → P n → All P ns → All P (insert_sorted n ns)
  unfolding insert_sorted
  All-insert_sorted n [] p h = (p, tt)
  All-insert_sorted n (m ∷ ns) p h = elim (Bool-cases (leb n m)) [
    | inl first ↦ rw first (p, h)
    | inr later ↦ rw later (h.0, All-insert_sorted n ns p h.1)
  ]

All-above : (n m : ℕ) (ns : List ℕ) → n < m → All (λ k. m < k) ns → All (λ k. n < k) ns
All-above n m [] h a = tt
All-above n m (k ∷ ns) h a = (omega (arith, h, a.0), All-above n m ns h a.1)

insert_sorted-IsAscending :
    (n : ℕ) (ns : List ℕ) → holds n ns ≡ false → IsAscending ns → IsAscending (insert_sorted n ns)
unfolding insert_sorted any
insert_sorted-IsAscending n [] fresh a = (tt, tt)
insert_sorted-IsAscending n (m ∷ ns) fresh a = elim (Bool-cases (leb n m)) [
  | inl first ↦
      let below : n < m = ground (arith, first, fresh) in
      rw first ((below, All-above n m ns below a.0), a)
  | inr later ↦ rw later (
    All-insert_sorted (λ k. m < k) n ns (ground (arith, later)) a.0,
    insert_sorted-IsAscending n ns (ground (arith, fresh)) a.1,
  )
]

record IsSortedOf (ns out : List ℕ) : Type 0 where
  ascending : IsAscending out
  lengths : All IsLength out
  same : length out ≡ length ns

sorted-holds : (k : ℕ) (ns : List ℕ) → holds k (sorted ns) ≡ holds k ns
unfolding sorted any
sorted-holds k [] = refl
sorted-holds k (n ∷ ns) = ground (arith, holds-insert_sorted n k (sorted ns), sorted-holds k ns)

sorted-IsSortedOf : (ns : List ℕ) → IsApart ns → All IsLength ns → IsSortedOf ns (sorted ns)
unfolding sorted
sorted-IsSortedOf [] a h = record { ascending = tt; lengths = tt; same = refl }
sorted-IsSortedOf (n ∷ ns) a h =
    let rest = sorted-IsSortedOf ns a.1 h.1 in
    record {
      ascending =
          insert_sorted-IsAscending n (sorted ns) (ground (arith, sorted-holds n ns, a.0))
            rest.ascending;
      lengths = All-insert_sorted IsLength n (sorted ns) h.0 rest.lengths;
      same = ground (arith, length-insert_sorted n (sorted ns), rest.same);
    }

-- Lengths that are accepted come out strictly ascending, each positive and at most 100 million, and
-- as many as were given.
pub normalize_context_lengths-IsAscending :
    (values : List ℤ) (out : List ℕ)
    → normalize_context_lengths values ≡ some out
    → IsAscending out × All IsLength out × (length out ≡ length values)
unfolding normalize_context_lengths
normalize_context_lengths-IsAscending values out e = elim (Option-cases (collect [] values)) [
  | inl stopped ↦ ground (arith, e, stopped)
  | inr (ns, found) ↦
      let got = collect_lem [] values ns found in
      let done = sorted-IsSortedOf ns got.apart got.lengths in
      let same : sorted ns ≡ out = ground (arith, e, found) in
      subst (λ o. IsAscending o × All IsLength o × (length o ≡ length values)) same
        (done.ascending, done.lengths, ground (arith, done.same, got.count))
]

module _ (unicode : ℕ → ℕ) where
  -- A model's advertised length is positive, or there is none; and a configured override is the
  -- length whatever the catalog says.
  pub effective_model_context_positive :
      (c : Catalog) (config : List (String × ℤ)) (id : String) (fallback : ℤ)
      → let (length, source, _) = effective_model_context unicode c config id fallback in
        ((is_pos length ≡ true) ⊎ ((length ≡ pos 0) × (source ≡ nowhere)))
        × ((context_override_for_model unicode id config ≡ none)
            ⊎ (context_override_for_model unicode id config ≡ some length))
  unfolding effective_model_context context_override_for_model
  effective_model_context_positive c config id fallback = ground arith
