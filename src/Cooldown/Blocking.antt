-- ===== src/Cooldown/Blocking.antt =====
-- A recorded failure keeps the executor from sending the next request for that pair.
use workbuddy_cpa_plugin.Base.{
  ℕ, ◌+◌, ◌<◌, ◌≡◌, ap, ◌⊎◌, inl, inr, true, false, Option, some, arith, Option-cases, is_some,
  String, string_eq,
}
use workbuddy_cpa_plugin.Base.Text.{trim_space, is_empty}
use workbuddy_cpa_plugin.Base.Maps.{AllEntries}
use workbuddy_cpa_plugin.Cooldown.{
  ModelCooldownKey, ModelCooldownEntry, Table, key_eq, pair_key, ChatFailure, hold_key, hold_until,
  cooldown_sweep_locked, is_active, mark_quota_freeze, quota_probe_ttl, quota_freeze_for,
}
use workbuddy_cpa_plugin.Cooldown.Entries.{IsTable}
use workbuddy_cpa_plugin.Base.Maps.{AllEntries-keep_passing}
use workbuddy_cpa_plugin.Cooldown.View.{held, or_else, quota_freeze_for-held}
use workbuddy_cpa_plugin.Cooldown.Invariant.{mark_quota_freeze-IsTable}
use workbuddy_cpa_plugin.Cooldown.Marking.{store_hold-in_force}

hold_key-eq :
    (auth_id model : String) (f f' : ChatFailure) (key : ModelCooldownKey)
    → hold_key auth_id model f ≡ some (key, f')
    → (is_empty (trim_space auth_id) ≡ false)
      × ((key ≡ pair_key (trim_space auth_id) "")
          ⊎ (key ≡ pair_key (trim_space auth_id) (trim_space model)))
unfolding hold_key
hold_key-eq auth_id model f f' key h = ground arith

sweep-active :
    (now : ℕ) (t : Table) → AllEntries (λ _ w. now < w.until) (cooldown_sweep_locked now t)
unfolding cooldown_sweep_locked
sweep-active now t =
    AllEntries-keep_passing (λ _ w. now < w.until) (λ _ v. is_active now v) t
      (λ k v h. ground arith)

hold_until-in_force :
    (now : ℕ) (key : ModelCooldownKey) (f : ChatFailure) (until : ℕ) (recovery : String) (t : Table)
    → now < until
    → is_some (held now (hold_until now key f until recovery t) key) ≡ true
unfolding hold_until
hold_until-in_force now key f until recovery t soon = ground (
  arith,
  store_hold-in_force now key f (now + quota_probe_ttl) "bounded_ttl_probe" _ (sweep-active now t)
      (omega arith),
  store_hold-in_force now key f until recovery _ (sweep-active now t) soon,
)

marked_in_force :
    (now : ℕ) (auth_id model : String) (f f' : ChatFailure) (until : ℕ) (recovery : String)
    (t : Table) (key : ModelCooldownKey)
    → hold_key auth_id model f ≡ some (key, f')
    → now < until
    → is_some (held now (mark_quota_freeze now auth_id model f until recovery t) key) ≡ true
unfolding mark_quota_freeze
marked_in_force now auth_id model f f' until recovery t key asked soon =
    rw (asked, mark_quota_freeze) (hold_until-in_force now key f' until recovery t soon)

-- Whichever of the two keys holds an entry, the answer is an entry.
either :
    {a b : ModelCooldownKey} (view : ModelCooldownKey → Option ModelCooldownEntry)
    (key : ModelCooldownKey)
    → (key ≡ a) ⊎ (key ≡ b)
    → is_some (view key) ≡ true
    → is_some (or_else (view a) (view b)) ≡ true
either view key (inl e) h = ground (arith, h, ap view e)
either view key (inr e) h = ground (arith, h, ap view e)

pub mark_quota_freeze-quota_freeze_for :
    (now : ℕ) (auth_id model : String) (f : ChatFailure) (until : ℕ) (recovery : String) (t : Table)
    → IsTable now t
    → is_some (hold_key auth_id model f) ≡ true
    → now < until
    → is_some
        (quota_freeze_for now auth_id model
          (mark_quota_freeze now auth_id model f until recovery t)).1
      ≡ true
mark_quota_freeze-quota_freeze_for now auth_id model f until recovery t w named soon =
    elim (Option-cases (hold_key auth_id model f)) [
      | inl ignored ↦ ground (arith, named, ignored)
      | inr ((key, f'), asked) ↦
          let marked = mark_quota_freeze now auth_id model f until recovery t in
          let after = mark_quota_freeze-IsTable now auth_id model f until recovery t w in
          let (named, which) = hold_key-eq auth_id model f f' key asked in
          rw (quota_freeze_for-held now auth_id model marked after.distinct, named)
            (either (held now marked) key which
              (marked_in_force now auth_id model f f' until recovery t key asked soon))
    ]
