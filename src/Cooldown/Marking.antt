-- ===== src/Cooldown/Marking.antt =====
-- What marking a hold does to it and to the other holds.
use workbuddy_cpa_plugin.Base.{
  ℕ, ◌+◌, ◌≤◌, ◌<◌, ◌≡◌, ap, ◌⊎◌, inl, inr, true, false, none, some, arith, if◌then◌else◌, length,
  Bool-cases, Option-cases, if_elim, ltb, leb, ◌==◌, beq_self, is_some, String, string_eq,
}
use workbuddy_cpa_plugin.Base.Maps.{
  lookup, Distinct, AllEntries, lookup-keep, lookup-delete, lookup-insert, Distinct-keep,
  AllEntries-lookup,
}
use workbuddy_cpa_plugin.Cooldown.{
  ModelCooldownKey, ModelCooldownEntry, Table, make_room, key_eq, pair_key, ChatFailure, hold_key,
  hold_until, store_hold, new_entry, cooldown_sweep_locked, is_active, model_cooldown_max_entries,
  quota_reason_strength, mark_quota_freeze, quota_max_horizon, quota_probe_ttl, occurred_before,
  earliest_from,
}
use workbuddy_cpa_plugin.Cooldown.View.{held, held-sweep}
use workbuddy_cpa_plugin.Cooldown.Eviction.{IsEarliest, earliest_from-IsEarliest}
use workbuddy_cpa_plugin.Cooldown.Invariant.{sweep-positive}

-- The new hold is at least as long, and its reason at least as strong.
pub record IsKept (prev : ModelCooldownEntry) (v : ModelCooldownEntry) : Type 0 where
  pub as_long : prev.until ≤ v.until
  pub as_strong : quota_reason_strength prev.reason ≤ quota_reason_strength v.reason

-- What a mark makes of the entry that stands under its key.
pub merged : ℕ → ChatFailure → ℕ → String → ModelCooldownEntry → ModelCooldownEntry
merged now f until recovery prev =
    if ltb (quota_reason_strength f.reason) (quota_reason_strength prev.reason)
    then prev
    else if ltb until prev.until
    then new_entry now f (occurred_before prev) prev.until prev.recovery_condition
    else new_entry now f (occurred_before prev) until recovery

merged-IsKept :
    (now : ℕ) (f : ChatFailure) (until : ℕ) (recovery : String) (prev : ModelCooldownEntry)
    → IsKept prev (merged now f until recovery prev)
unfolding merged
merged-IsKept now f until recovery prev = ground arith

module _ (now : ℕ) (key : ModelCooldownKey) (f : ChatFailure) (until : ℕ) (recovery : String) where
  lookup-store_hold_old :
      (t : Table) (prev : ModelCooldownEntry)
      → lookup key t ≡ some prev
      → (j : ModelCooldownKey)
      → lookup j (store_hold now key f until recovery t)
        ≡ (if key == j then some (merged now f until recovery prev) else lookup j t)
  unfolding store_hold merged
  lookup-store_hold_old t prev found j = ground (
    arith,
    key_eq.beq_iff key j,
    lookup-insert key j (new_entry now f (occurred_before prev) prev.until prev.recovery_condition)
        t,
    lookup-insert key j (new_entry now f (occurred_before prev) until recovery) t,
  )

  pub lookup-store_hold_new :
      (t : Table)
      → lookup key t ≡ none
      → (j : ModelCooldownKey)
      → lookup j (store_hold now key f until recovery t)
        ≡ (if key == j then some (new_entry now f now until recovery) else lookup j (make_room t))
  unfolding store_hold
  lookup-store_hold_new t absent j =
      rw (absent, store_hold)
        (lookup-insert key j (new_entry now f now until recovery) (make_room t))

  -- An entry survives a mark unless the table is full, the key new and no hold ends sooner.
  store_hold-survives :
      (t : Table) (j : ModelCooldownKey) (prev : ModelCooldownEntry)
      → Distinct t
      → AllEntries (λ _ w. 0 < w.until) t
      → lookup j t ≡ some prev
      → ((v : ModelCooldownEntry) × (lookup j (store_hold now key f until recovery t) ≡ some v)
          × IsKept prev v)
        ⊎ ((model_cooldown_max_entries ≤ length t)
            × (lookup key t ≡ none)
            × AllEntries (λ _ w. prev.until ≤ w.until) t)
  unfolding make_room
  store_hold-survives t j prev d a found = elim (Option-cases (lookup key t)) [
    | inl absent ↦
        let new = lookup-store_hold_new t absent j in
        let gone = earliest_from (pair_key "" "") 0 t in
        let differ : (key == j) ≡ false = ground (arith, key_eq.beq_iff key j) in
        elim (Bool-cases (leb model_cooldown_max_entries (length t))) [
          | inr room ↦ inl (prev, ground (arith, new), omega arith)
          | inl full ↦
              let least : IsEarliest t gone =
                earliest_from-IsEarliest t (λ empty. ground (arith, ap length empty)) d a in
              elim (Bool-cases (j == gone)) [
                | inl same ↦
                    let at : j ≡ gone = (key_eq.beq_iff j gone).0 same in
                    let shown : least.entry ≡ prev =
                      ground (arith, least.found, found, ap (λ k. lookup k t) at) in
                    inr (ground arith, absent, rw shown at (least.least))
                | inr other ↦ inl (prev, ground (arith, new, lookup-delete gone j t d), omega arith)
              ]
        ]
    | inr (old, there) ↦
        let new = lookup-store_hold_old t old there j in
        elim (Bool-cases (key == j)) [
          | inl same ↦
              let at : key ≡ j = (key_eq.beq_iff key j).0 same in
              let shown : old ≡ prev = ground (arith, there, found, ap (λ k. lookup k t) at) in
              inl (
                merged now f until recovery prev,
                ground (arith, new, shown, same),
                merged-IsKept now f until recovery prev,
              )
          | inr other ↦ inl (prev, ground (arith, new, other), omega arith)
        ]
  ]

-- What becomes of a hold in force: it is kept, or it was dropped from a full table in which no
-- hold ends sooner.
abbrev pub Survives : ℕ → Table → ModelCooldownKey → ModelCooldownEntry → Table → Type 0
Survives now t j prev after =
    ((v : ModelCooldownEntry) × (held now after j ≡ some v) × IsKept prev v)
    ⊎ ((model_cooldown_max_entries ≤ length (cooldown_sweep_locked now t))
        × AllEntries (λ _ w. prev.until ≤ w.until) (cooldown_sweep_locked now t))

module _ (now : ℕ) (t : Table) (j : ModelCooldownKey) (prev : ModelCooldownEntry) (d : Distinct t)
    (found : held now t j ≡ some prev) where
  sweep-found : (lookup j (cooldown_sweep_locked now t) ≡ some prev) × (now < prev.until)
  unfolding cooldown_sweep_locked
  sweep-found = ground (arith, lookup-keep (λ _ w. is_active now w) j t d)

  store_hold-Survives :
      (key : ModelCooldownKey) (f : ChatFailure) (until : ℕ) (recovery : String)
      → Survives now t j prev (store_hold now key f until recovery (cooldown_sweep_locked now t))
  unfolding cooldown_sweep_locked
  store_hold-Survives key f until recovery =
      elim (store_hold-survives now key f until recovery (cooldown_sweep_locked now t) j prev
        (Distinct-keep _ t d) (sweep-positive now t) sweep-found.0) [
          | inl (v, there, kept) ↦
              let long : prev.until ≤ v.until = kept.as_long in
              inl (v, ground (arith, there, sweep-found.1, long), kept)
          | inr (full, _, least) ↦ inr (full, least)
        ]

  hold_until-Survives :
      (key : ModelCooldownKey) (f : ChatFailure) (until : ℕ) (recovery : String)
      → Survives now t j prev (hold_until now key f until recovery t)
  unfolding hold_until
  hold_until-Survives key f until recovery =
      if_elim (Survives now t j prev) (ltb now until) _ t
        (λ _.
          if_elim (Survives now t j prev) (ltb (now + quota_max_horizon) until) _ _
            (λ _. store_hold-Survives key f (now + quota_probe_ttl) "bounded_ttl_probe")
            λ _. store_hold-Survives key f until recovery)
        λ _. inl (prev, found, omega arith)

-- No report of a failure, on whatever account and model, shortens or weakens a hold in force: under
-- its key there is then a hold that ends no earlier, for a reason no weaker. The exception is a
-- table with 4096 holds in force, none of which ends before the one that is gone.
pub mark_quota_freeze-Survives :
    (now : ℕ) (auth_id model : String) (f : ChatFailure) (until : ℕ) (recovery : String) (t : Table)
    (j : ModelCooldownKey) (prev : ModelCooldownEntry)
    → Distinct t
    → held now t j ≡ some prev
    → Survives now t j prev (mark_quota_freeze now auth_id model f until recovery t)
unfolding mark_quota_freeze
mark_quota_freeze-Survives now auth_id model f until recovery t j prev d found =
    elim (Option-cases (hold_key auth_id model f)) [
      | inl ignored ↦ inl (prev, rw (ignored, mark_quota_freeze) found, omega arith)
      | inr ((key, f'), asked) ↦
          rw (asked, mark_quota_freeze)
            (hold_until-Survives now t j prev d found key f' until recovery)
    ]

-- The pair under which a failure with a definite key is held is refused right afterwards.
pub store_hold-in_force :
    (now : ℕ) (key : ModelCooldownKey) (f : ChatFailure) (until : ℕ) (recovery : String) (t : Table)
    → AllEntries (λ _ w. now < w.until) t
    → now < until
    → is_some (held now (store_hold now key f until recovery t) key) ≡ true
store_hold-in_force now key f until recovery t a soon = elim (Option-cases (lookup key t)) [
  | inl absent ↦
      ground (arith, lookup-store_hold_new now key f until recovery t absent key, beq_self key)
  | inr (old, there) ↦
      let active : now < old.until = AllEntries-lookup (λ _ w. now < w.until) key old t a there in
      let kept = merged-IsKept now f until recovery old in
      let long : old.until ≤ (merged now f until recovery old).until = kept.as_long in
      ground (arith, lookup-store_hold_old now key f until recovery t old there key, beq_self key)
]

module _ (now : ℕ) (t : Table) (j : ModelCooldownKey) (d : Distinct t)
    (room : length (cooldown_sweep_locked now t) < model_cooldown_max_entries) where
  held-store_hold_other :
      (key : ModelCooldownKey) (f : ChatFailure) (until : ℕ) (recovery : String)
      → (key == j) ≡ false
      → held now (store_hold now key f until recovery (cooldown_sweep_locked now t)) j
        ≡ held now t j
  unfolding make_room
  held-store_hold_other key f until recovery other =
      let s = cooldown_sweep_locked now t in
      let swept = held-sweep now t j d in
      elim (Option-cases (lookup key s)) [
        | inl absent ↦
            ground
              (arith, lookup-store_hold_new now key f until recovery s absent j, swept, other, room)
        | inr (old, there) ↦
            ground
              (arith, lookup-store_hold_old now key f until recovery s old there j, swept, other)
      ]

  -- With room in the table, a mark leaves what every other key's readers see.
  pub held-mark_quota_freeze_other :
      (auth_id model : String) (f f' : ChatFailure) (until : ℕ) (recovery : String)
      (key : ModelCooldownKey)
      → hold_key auth_id model f ≡ some (key, f')
      → (key == j) ≡ false
      → held now (mark_quota_freeze now auth_id model f until recovery t) j ≡ held now t j
  unfolding mark_quota_freeze hold_until
  held-mark_quota_freeze_other auth_id model f f' until recovery key asked other =
      rw (asked, mark_quota_freeze)
        (ground (
          arith,
          held-store_hold_other key f' (now + quota_probe_ttl) "bounded_ttl_probe" other,
          held-store_hold_other key f' until recovery other,
        ))
