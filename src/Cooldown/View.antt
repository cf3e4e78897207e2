-- ===== src/Cooldown/View.antt =====
-- The table as its readers see it: the hold that is in force under each key.
use workbuddy_cpa_plugin.Base.{
  ℕ, ◌≡◌, Option, none, some, arith, if◌then◌else◌, ◌==◌, String, not, string_eq,
}
use workbuddy_cpa_plugin.Base.Text.{trim_space, is_empty}
use workbuddy_cpa_plugin.Base.Maps.{
  lookup, Distinct, lookup-keep, lookup-delete, Distinct-keep, passing,
}
use workbuddy_cpa_plugin.Cooldown.{
  ModelCooldownKey, ModelCooldownEntry, Table, key_eq, pair_key, cooldown_sweep_locked, is_active,
  probe, quota_freeze_for,
}

-- The hold in force at a time under a key.
abbrev pub held : ℕ → Table → ModelCooldownKey → Option ModelCooldownEntry
held now t key = passing (is_active now) (lookup key t)

abbrev pub or_else {ℓ} : {A : Type ℓ} → Option A → Option A → Option A
or_else none y = y
or_else (some x) y = some x

-- The sweep of a table changes no reader's view.
pub held-sweep :
    (now : ℕ) (t : Table) (key : ModelCooldownKey)
    → Distinct t
    → held now (cooldown_sweep_locked now t) key ≡ held now t key
unfolding cooldown_sweep_locked
held-sweep now t key d = ground (arith, lookup-keep (λ _ w. is_active now w) key t d)

probe_lem : (now : ℕ) (key : ModelCooldownKey) (t : Table) → (probe now key t).1 ≡ held now t key
unfolding probe
probe_lem now key t = ground arith

held-probe :
    (now : ℕ) (key j : ModelCooldownKey) (t : Table)
    → Distinct t
    → held now (probe now key t).0 j ≡ held now t j
unfolding probe
held-probe now key j t d = ground (arith, lookup-delete key j t d, key_eq.beq_iff j key)

Distinct-probe :
    (now : ℕ) (key : ModelCooldownKey) (t : Table) → Distinct t → Distinct (probe now key t).0
unfolding probe
Distinct-probe now key t d = ground (arith, Distinct-keep (λ j _. not (j == key)) t d)

-- Whatever the table holds, `quotaFreezeFor` answers with the hold in force on the account, else
-- with the one on the pair, else with none, and answers none for a blank account.
pub quota_freeze_for-held :
    (now : ℕ) (auth_id model : String) (t : Table)
    → Distinct t
    → (quota_freeze_for now auth_id model t).1 ≡ (
        if is_empty (trim_space auth_id)
        then none
        else or_else
            (held now t (pair_key (trim_space auth_id) ""))
            (held now t (pair_key (trim_space auth_id) (trim_space model))))
unfolding quota_freeze_for
quota_freeze_for-held now auth_id model t d =
    let own = pair_key (trim_space auth_id) "" in
    let pair = pair_key (trim_space auth_id) (trim_space model) in
    ground (
      arith,
      probe_lem now own t,
      probe_lem now pair (probe now own t).0,
      held-probe now own pair t d,
    )

-- Asking changes no reader's view.
pub held-quota_freeze_for :
    (now : ℕ) (auth_id model : String) (t : Table) (j : ModelCooldownKey)
    → Distinct t
    → held now (quota_freeze_for now auth_id model t).0 j ≡ held now t j
unfolding quota_freeze_for
held-quota_freeze_for now auth_id model t j d =
    let own = pair_key (trim_space auth_id) "" in
    let pair = pair_key (trim_space auth_id) (trim_space model) in
    ground (
      arith,
      held-probe now own j t d,
      held-probe now pair j (probe now own t).0 (Distinct-probe now own t d),
    )
