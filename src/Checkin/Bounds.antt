-- ===== src/Checkin/Bounds.antt =====
-- The store stays bounded, and so does the number of retries.
use workbuddy_cpa_plugin.Base.{
  ℕ, ◌≤◌, ◌<◌, ◌≡◌, refl, sym, ◌⊎◌, inl, inr, true, false, List, [], ◌∷◌, none, some, arith, length,
  Bool-cases, ltb, ◌==◌, beq_self, String, not, string_eq, nat_eq, ◌||◌,
}
use workbuddy_cpa_plugin.Base.Maps.{
  lookup, Distinct, AllEntries, AllEntries-keep, length-delete, Distinct-keep, length-keep-le,
  lookup-delete,
}
use workbuddy_cpa_plugin.Checkin.Attempt.{}
use workbuddy_cpa_plugin.Checkin.Runs.{
  RunStore, RunRecord, make_room_locked, oldest_from, is_protected, checkin_latest_limit,
  checkin_history_limit,
}
use workbuddy_cpa_plugin.Checkin.Account.{}

-- At most three retries, and none allowed once three were made.
pub record IsRecord (r : RunRecord) : Type 0 where
  pub counted : r.retry_count ≤ 3
  pub allowed : (r.retry_allowed ≡ false) ⊎ (r.retry_count < 3)

pub record IsStore (s : RunStore) : Type 0 where
  pub distinct : Distinct s.latest
  pub small : length s.latest ≤ checkin_latest_limit
  pub short : length s.history ≤ checkin_history_limit
  pub records : AllEntries (λ _ r. IsRecord r) s.latest

module _ (day : ℕ → String) where
  -- What the search picks behind an entry it also picks with the entry before it.
  later :
      (s : RunStore) (now : ℕ) (oldest k j : String) (v : RunRecord) (m : List (String × RunRecord))
      → lookup j m ≡ none
      → (oldest ≡ k)
        ⊎ ((w : RunRecord) × (lookup k m ≡ some w) × (is_protected day s now k w ≡ false))
      → (oldest ≡ k)
        ⊎ ((w : RunRecord) × (lookup k ((j, v) ∷ m) ≡ some w)
            × (is_protected day s now k w ≡ false))
  unfolding lookup
  later s now oldest k j v m fresh (inl same) = inl same
  later s now oldest k j v m fresh (inr (w, found, free)) =
      inr (w, ground (arith, string_eq.beq_iff j k), free)

  -- An entry that the search for room picks is in the table and not protected.
  oldest_from-free :
      (s : RunStore) (now : ℕ) (oldest : String) (at : ℕ) (m : List (String × RunRecord))
      (k : String)
      → Distinct m
      → oldest_from day s now oldest at m ≡ k
      → (oldest ≡ k)
        ⊎ ((v : RunRecord) × (lookup k m ≡ some v) × (is_protected day s now k v ≡ false))
  unfolding oldest_from lookup
  oldest_from-free s now oldest at [] k d e = inl e
  oldest_from-free s now oldest at ((j, v) ∷ m) k d e =
      let kept = oldest_from-free s now oldest at m k d.1 in
      let replaced = oldest_from-free s now j v.at m k d.1 in
      elim (Bool-cases (is_protected day s now j v)) [
        | inl protected ↦ later s now oldest k j v m d.0 (kept (ground (arith, protected, e)))
        | inr free ↦ elim (Bool-cases (oldest == "" || ltb v.at at)) [
          | inl older ↦ elim (replaced (ground (arith, free, older, e))) [
            | inl same ↦
                inr (v, ground (arith, beq_self k, string_eq.beq_iff j k), rw (sym same) free)
            | inr (w, found, free') ↦ later s now oldest k j v m d.0 (inr (w, found, free'))
          ]
          | inr younger ↦ later s now oldest k j v m d.0 (kept (ground (arith, free, younger, e)))
        ]
      ]

  pub make_room-lookup :
      (s : RunStore) (now : ℕ) (k : String) (v : RunRecord)
      → Distinct s.latest
      → lookup k s.latest ≡ some v
      → is_protected day s now k v ≡ true
      → lookup k (make_room_locked day s now).0.latest ≡ some v
  unfolding make_room_locked
  make_room-lookup s now k v d found protected =
      let oldest = oldest_from day s now "" 0 s.latest in
      elim (Bool-cases (k == oldest)) [
        | inl same ↦
            elim (oldest_from-free s now "" 0 s.latest k d
              (sym ((string_eq.beq_iff k oldest).0 same))) [
                | inl nothing ↦ ground (
                  arith,
                  found,
                  sym nothing,
                  beq_self oldest,
                  (string_eq.beq_iff k oldest).0 same,
                )
                | inr (w, there, free) ↦ ground (arith, found, there, free, protected)
              ]
        | inr other ↦ ground (arith, lookup-delete oldest k s.latest d)
      ]

  pub make_room-IsStore :
      (s : RunStore) (now : ℕ) → IsStore s → IsStore (make_room_locked day s now).0
  unfolding make_room_locked
  make_room-IsStore s now w =
      let oldest = oldest_from day s now "" 0 s.latest in
      let kept =
        AllEntries-keep (λ _ r. IsRecord r) (λ j _. not (j == oldest)) s.latest w.records in
      let apart = Distinct-keep (λ j _. not (j == oldest)) s.latest w.distinct in
      let fewer = length-keep-le (λ j _. not (j == oldest)) s.latest in
      ground (arith, kept, apart, fewer)

  -- Where room was made there is room.
  pub make_room-space :
      (s : RunStore) (now : ℕ)
      → IsStore s
      → (make_room_locked day s now).1 ≡ true
      → length (make_room_locked day s now).0.latest < checkin_latest_limit
  unfolding make_room_locked
  make_room-space s now w room =
      let oldest = oldest_from day s now "" 0 s.latest in
      let fewer = length-delete oldest s.latest w.distinct in
      elim (oldest_from-free s now "" 0 s.latest oldest w.distinct refl) [
        | inl nothing ↦ ground (arith, w.small, room, sym nothing, string_eq.beq_iff oldest "")
        | inr (v, there, free) ↦ ground (arith, w.small, room, there, fewer)
      ]
