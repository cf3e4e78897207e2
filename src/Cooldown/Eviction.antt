-- ===== src/Cooldown/Eviction.antt =====
-- The entry that a full table gives up: one whose hold ends first.
use workbuddy_cpa_plugin.Base.{
  ℕ, ◌+◌, ◌≤◌, ◌<◌, ◌≡◌, refl, ap, ◌≢◌, ◌⊎◌, inl, inr, [], ◌∷◌, none, some, arith, length,
  Bool-cases, ltb, leb, ◌||◌, ◌==◌, beq_self, nat_eq,
}
use workbuddy_cpa_plugin.Base.Maps.{lookup, delete, Distinct, AllEntries, length-delete}
use workbuddy_cpa_plugin.Cooldown.{
  ModelCooldownKey, ModelCooldownEntry, Table, earliest_from, make_room, key_eq, pair_key,
  model_cooldown_max_entries,
}

-- The key of an entry of the table whose hold ends no later than any other's.
pub record IsEarliest (t : Table) (k : ModelCooldownKey) : Type 0 where
  pub entry : ModelCooldownEntry
  pub found : lookup k t ≡ some entry
  pub least : AllEntries (λ _ w. entry.until ≤ w.until) t

-- An entry found behind the first one is still found, since no key stands twice.
lookup-cons :
    (k j : ModelCooldownKey) (v w : ModelCooldownEntry) (t : Table)
    → lookup k t ≡ none
    → lookup j t ≡ some w
    → lookup j ((k, v) ∷ t) ≡ some w
unfolding lookup
lookup-cons k j v w t absent found = ground (arith, key_eq.beq_iff k j)

lookup-head :
    (k : ModelCooldownKey) (v : ModelCooldownEntry) (t : Table) → lookup k ((k, v) ∷ t) ≡ some v
unfolding lookup
lookup-head k v t = rw (beq_self k)

least-weaken :
    (m n : ℕ) (t : Table)
    → m ≤ n
    → AllEntries (λ _ w. n ≤ w.until) t
    → AllEntries (λ _ w. m ≤ w.until) t
least-weaken m n [] h a = a
least-weaken m n ((k, v) ∷ t) h a = (omega arith, least-weaken m n t h a.1)

abbrev Found : Table → ModelCooldownKey → ℕ → ModelCooldownKey → Type 0
Found t oldest earliest r =
    ((r ≡ oldest) × AllEntries (λ _ w. earliest ≤ w.until) t)
    ⊎ ((w : ModelCooldownEntry) × (lookup r t ≡ some w)
        × (w.until < earliest)
        × AllEntries (λ _ u. w.until ≤ u.until) t)

earliest_from-Found :
    (oldest : ModelCooldownKey) (earliest : ℕ) (t : Table)
    → 0 < earliest
    → Distinct t
    → AllEntries (λ _ w. 0 < w.until) t
    → Found t oldest earliest (earliest_from oldest earliest t)
unfolding earliest_from
earliest_from-Found o e [] pos d a = inl (refl, tt)
earliest_from-Found o e ((k, v) ∷ t) pos d a = elim (Bool-cases (e == 0 || ltb v.until e)) [
  | inl sooner ↦ rw sooner (elim (earliest_from-Found k v.until t a.0 d.1 a.1) [
    | inl (same, least) ↦ inr (v, rw same (lookup-head k v t), ground arith, (omega arith, least))
    | inr (w, found, less, least) ↦
        inr (w, lookup-cons k _ v w t d.0 found, ground arith, (omega arith, least))
  ])
  | inr later ↦
      let bound : e ≤ v.until = ground arith in
      rw later (elim (earliest_from-Found o e t pos d.1 a.1) [
        | inl (same, least) ↦ inl (same, (bound, least))
        | inr (w, found, less, least) ↦
            inr (w, lookup-cons k _ v w t d.0 found, less, (omega arith, least))
      ])
]

-- The search over a table with at least one entry ends at an earliest one.
pub earliest_from-IsEarliest :
    (t : Table)
    → t ≢ []
    → Distinct t
    → AllEntries (λ _ w. 0 < w.until) t
    → IsEarliest t (earliest_from (pair_key "" "") 0 t)
unfolding earliest_from
earliest_from-IsEarliest [] h d a = absurd (h refl)
earliest_from-IsEarliest ((k, v) ∷ t) h d a = elim (earliest_from-Found k v.until t a.0 d.1 a.1) [
  | inl (same, least) ↦ record {
    entry = v;
    found = rw same (lookup-head k v t);
    least = (omega arith, least);
  }
  | inr (w, found, less, least) ↦ record {
    entry = w;
    found = lookup-cons k _ v w t d.0 found;
    least = (omega arith, least);
  }
]

-- A table that made room has a free place.
pub length-make_room :
    (t : Table)
    → length t ≤ model_cooldown_max_entries
    → Distinct t
    → AllEntries (λ _ w. 0 < w.until) t
    → length (make_room t) < model_cooldown_max_entries
unfolding make_room
length-make_room t small d a = elim (Bool-cases (leb model_cooldown_max_entries (length t))) [
  | inl full ↦
      let e : IsEarliest t (earliest_from (pair_key "" "") 0 t) =
        earliest_from-IsEarliest t (λ empty. ground (arith, ap length empty)) d a in
      let one : length t ≡ length (delete (earliest_from (pair_key "" "") 0 t) t) + 1 =
        rw e.found at (length-delete (earliest_from (pair_key "" "") 0 t) t d) in
      rw full (omega arith)
  | inr room ↦ rw room (ground arith)
]
