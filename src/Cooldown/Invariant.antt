-- ===== src/Cooldown/Invariant.antt =====
-- Every operation keeps the table well formed, whatever the calls and their order.
use workbuddy_cpa_plugin.Base.{
  ℕ, ◌+◌, ◌≤◌, ◌<◌, ◌≡◌, refl, inl, inr, Bool, false, List, Option, none, some, arith, length,
  Bool-cases, Option-cases, if_elim, ltb, leb, ◌||◌, ◌==◌, is_some, nat_eq, String, not, string_eq,
}
use workbuddy_cpa_plugin.Base.Text.{trim_space, trim_space_idem, is_empty}
use workbuddy_cpa_plugin.Base.Maps.{
  lookup, insert, keep, AllEntries, AllEntries-keep, AllEntries-keep_passing, AllEntries-insert,
  AllEntries-lookup, Distinct-keep, Distinct-insert, length-insert, length-keep-le,
}
use workbuddy_cpa_plugin.Accounts.{CreditsSummary}
use workbuddy_cpa_plugin.Cooldown.{
  ModelCooldownKey, ModelCooldownEntry, Table, make_room, key_eq, pair_key,
  model_cooldown_max_entries, ChatFailure, CooldownReason, hold_key, hold_until, store_hold,
  new_entry, cooldown_sweep_locked, is_unset, is_active, quota_max_horizon, quota_probe_ttl,
  mark_quota_freeze, mark_model_cooldown, quota_freeze_for, probe, cooling_model_set_for,
  clear_model_cooldown, observe_quota_credits, occurred_before,
}
use workbuddy_cpa_plugin.Cooldown.Entries.{IsEntry, IsTable, IsScoped}
use workbuddy_cpa_plugin.Cooldown.Eviction.{length-make_room}

-- A key and a failure under which an entry may be stored.
pub record IsRequest (key : ModelCooldownKey) (f : ChatFailure) : Type 0 where
  pub named : is_empty key.auth_id ≡ false
  pub trimmed_auth : trim_space key.auth_id ≡ key.auth_id
  pub trimmed_model : trim_space key.model_id ≡ key.model_id
  pub caused : is_unset f.reason ≡ false
  pub scoped : IsScoped key f.scope f.reason

trim_empty : trim_space "" ≡ ""
unfolding trim_space
trim_empty = refl

pub hold_key-IsRequest :
    (auth_id model : String) (f f' : ChatFailure) (key : ModelCooldownKey)
    → hold_key auth_id model f ≡ some (key, f')
    → IsRequest key f'
unfolding hold_key
hold_key-IsRequest auth_id model f f' key h =
    ground (arith, trim_space_idem auth_id, trim_space_idem model, trim_empty)

-- Filtering a table keeps it well formed.
pub keep-IsTable :
    (now : ℕ) (p : ModelCooldownKey → ModelCooldownEntry → Bool) (t : Table)
    → IsTable now t
    → IsTable now (keep p t)
keep-IsTable now p t w = record {
  distinct = Distinct-keep p t w.distinct;
  small = omega (arith, length-keep-le p t, w.small);
  entries = AllEntries-keep (IsEntry now) p t w.entries;
}

pub sweep-positive :
    (now : ℕ) (t : Table) → AllEntries (λ _ w. 0 < w.until) (cooldown_sweep_locked now t)
unfolding cooldown_sweep_locked
sweep-positive now t =
    AllEntries-keep_passing (λ _ w. 0 < w.until) (λ _ v. is_active now v) t (λ k v h. ground arith)

-- An entry's start is no later than a time that is not before its own times.
occurred_before-le :
    (prev : ModelCooldownEntry) {now : ℕ}
    → prev.occurred_at ≤ now
    → prev.updated_at ≤ now
    → occurred_before prev ≤ now
occurred_before-le prev o u = ground arith

module _ (now : ℕ) (key : ModelCooldownKey) (f : ChatFailure) (r : IsRequest key f) where
  new_entry-IsEntry :
      (occurred until : ℕ) (recovery : String)
      → occurred ≤ now
      → now < until
      → until ≤ now + quota_max_horizon
      → IsEntry now key (new_entry now f occurred until recovery)
  new_entry-IsEntry occurred until recovery o n u = record {
    named = r.named;
    trimmed_auth = r.trimmed_auth;
    trimmed_model = r.trimmed_model;
    caused = r.caused;
    scoped = r.scoped;
    probed = refl;
    since = o;
    past = omega arith;
    future = n;
    bounded = u;
  }

  -- A hold under a new key, in a table with a free place.
  insert_new-IsTable :
      (v : ModelCooldownEntry) (t : Table)
      → IsEntry now key v
      → length t < model_cooldown_max_entries
      → IsTable now t
      → IsTable now (insert key v t)
  insert_new-IsTable v t e room w = record {
    distinct = Distinct-insert key v t w.distinct;
    small = ground (arith, length-insert key v t);
    entries = AllEntries-insert (IsEntry now) key v t e w.entries;
  }

  -- A hold in the place of another.
  insert_over-IsTable :
      (v prev : ModelCooldownEntry) (t : Table)
      → IsEntry now key v
      → lookup key t ≡ some prev
      → IsTable now t
      → IsTable now (insert key v t)
  insert_over-IsTable v prev t e found w = record {
    distinct = Distinct-insert key v t w.distinct;
    small = rw (length-insert key v t, found) w.small;
    entries = AllEntries-insert (IsEntry now) key v t e w.entries;
  }

  make_room-IsTable : (t : Table) → IsTable now t → IsTable now (make_room t)
  unfolding make_room
  make_room-IsTable t w = elim (Bool-cases (leb model_cooldown_max_entries (length t))) [
    | inl full ↦ rw full (keep-IsTable now _ t w)
    | inr room ↦ rw room w
  ]

  module _ (until : ℕ) (recovery : String) (soon : now < until)
      (near : until ≤ now + quota_max_horizon) where
    -- A hold that is already there keeps its start, and its end if that is later.
    stronger-IsTable :
        (prev : ModelCooldownEntry) (t : Table)
        → lookup key t ≡ some prev
        → IsTable now t
        → IsTable now (store_hold now key f until recovery t)
    unfolding store_hold
    stronger-IsTable prev t found w =
        let p : IsEntry now key prev = AllEntries-lookup (IsEntry now) key prev t w.entries found in
        let started = occurred_before-le prev (omega (arith, p.since, p.past)) p.past in
        rw (found, store_hold)
          (if_elim (IsTable now) _ _ _ (λ _. w)
            λ _.
              if_elim (IsTable now) (ltb until prev.until) _ _
                (λ longer.
                  insert_over-IsTable _ prev t
                    (new_entry-IsEntry (occurred_before prev) prev.until prev.recovery_condition
                      started (ground arith) (omega (arith, p.past, p.bounded)))
                    found w)
                λ shorter.
                  insert_over-IsTable _ prev t
                    (new_entry-IsEntry (occurred_before prev) until recovery started soon near)
                    found w)

    store_hold-IsTable :
        (t : Table)
        → AllEntries (λ _ w. 0 < w.until) t
        → IsTable now t
        → IsTable now (store_hold now key f until recovery t)
    unfolding store_hold
    store_hold-IsTable t a w = elim (Option-cases (lookup key t)) [
      | inl absent ↦
          rw (absent, store_hold)
            (insert_new-IsTable _ (make_room t)
              (new_entry-IsEntry now until recovery (omega arith) soon near)
              (length-make_room t w.small w.distinct a) (make_room-IsTable t w))
      | inr (prev, found) ↦ stronger-IsTable prev t found w
    ]

sweep-IsTable : (now : ℕ) (t : Table) → IsTable now t → IsTable now (cooldown_sweep_locked now t)
unfolding cooldown_sweep_locked
sweep-IsTable now t w = keep-IsTable now _ t w

-- A hold keeps the table well formed, whatever end is asked for.
pub hold_until-IsTable :
    (now : ℕ) (key : ModelCooldownKey) (f : ChatFailure) (until : ℕ) (recovery : String) (t : Table)
    → IsRequest key f
    → IsTable now t
    → IsTable now (hold_until now key f until recovery t)
unfolding hold_until
hold_until-IsTable now key f until recovery t r w =
    if_elim (IsTable now) (ltb now until) _ _
      (λ soon.
        if_elim (IsTable now) (ltb (now + quota_max_horizon) until) _ _
          (λ _.
            store_hold-IsTable now key f r (now + quota_probe_ttl) "bounded_ttl_probe" (omega arith)
              (omega arith) _ (sweep-positive now t) (sweep-IsTable now t w))
          λ near.
            store_hold-IsTable now key f r until recovery (ground arith) (ground arith) _
              (sweep-positive now t) (sweep-IsTable now t w))
      λ _. w

pub mark_quota_freeze-IsTable :
    (now : ℕ) (auth_id model : String) (f : ChatFailure) (until : ℕ) (recovery : String) (t : Table)
    → IsTable now t
    → IsTable now (mark_quota_freeze now auth_id model f until recovery t)
unfolding mark_quota_freeze
mark_quota_freeze-IsTable now auth_id model f until recovery t w =
    elim (Option-cases (hold_key auth_id model f)) [
      | inl ignored ↦ rw (ignored, mark_quota_freeze) w
      | inr ((key, f'), held) ↦
          rw (held, mark_quota_freeze)
            (hold_until-IsTable now key f' until recovery t
              (hold_key-IsRequest auth_id model f f' key held) w)
    ]

pub mark_model_cooldown-IsTable :
    (now : ℕ) (auth_id model : String) (reason : CooldownReason) (t : Table)
    → IsTable now t
    → IsTable now (mark_model_cooldown now auth_id model reason t)
unfolding mark_model_cooldown
mark_model_cooldown-IsTable now auth_id model reason t w =
    if_elim (IsTable now) (is_empty (trim_space auth_id) || is_empty (trim_space model)) t _
      (λ _. w) λ _. mark_quota_freeze-IsTable now (trim_space auth_id) (trim_space model) _ _ _ t w

probe-IsTable :
    (now : ℕ) (key : ModelCooldownKey) (t : Table) → IsTable now t → IsTable now (probe now key t).0
unfolding probe
probe-IsTable now key t w = ground (arith, keep-IsTable now (λ j _. not (j == key)) t w)

pub quota_freeze_for-IsTable :
    (now : ℕ) (auth_id model : String) (t : Table)
    → IsTable now t
    → IsTable now (quota_freeze_for now auth_id model t).0
unfolding quota_freeze_for
quota_freeze_for-IsTable now auth_id model t w =
    let own = pair_key (trim_space auth_id) "" in
    let after = probe-IsTable now own t w in
    if_elim (λ (r : Table × Option ModelCooldownEntry). IsTable now r.0)
      (is_empty (trim_space auth_id)) _ _ (λ _. w)
      λ _.
        if_elim (λ (r : Table × Option ModelCooldownEntry). IsTable now r.0)
          (is_some (probe now own t).1) _ _ (λ _. after) λ _. probe-IsTable now _ _ after

pub cooling_model_set_for-IsTable :
    (now : ℕ) (auth_id : String) (t : Table)
    → IsTable now t
    → IsTable now (cooling_model_set_for now auth_id t).0
unfolding cooling_model_set_for
cooling_model_set_for-IsTable now auth_id t w =
    if_elim (λ (r : Table × List String). IsTable now r.0) (is_empty (trim_space auth_id)) _ _
      (λ _. w) λ _. keep-IsTable now _ t w

pub clear_model_cooldown-IsTable :
    (now : ℕ) (auth_id model : String) (t : Table)
    → IsTable now t
    → IsTable now (clear_model_cooldown auth_id model t).0
unfolding clear_model_cooldown
clear_model_cooldown-IsTable now auth_id model t w = ground (
  arith,
  keep-IsTable now (λ j _. not (j == pair_key (trim_space auth_id) (trim_space model))) t w,
  keep-IsTable now (λ k _. not (k.auth_id == trim_space auth_id)) t w,
)

pub observe_quota_credits-IsTable :
    (now : ℕ) (auth_id : String) (cr : Option CreditsSummary) (t : Table)
    → IsTable now t
    → IsTable now (observe_quota_credits auth_id cr t)
unfolding observe_quota_credits
observe_quota_credits-IsTable now auth_id none t w = w
observe_quota_credits-IsTable now auth_id (some cr) t w =
    ground (arith, keep-IsTable now (λ j _. not (j == pair_key (trim_space auth_id) "")) t w)
