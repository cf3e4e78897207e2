-- ===== src/Cooldown/Entries.antt =====
-- What holds of each entry of the table, and of the table as a whole.
use workbuddy_cpa_plugin.Base.{ℕ, ◌+◌, ◌≤◌, ◌<◌, ◌≡◌, ◌⊎◌, false, [], ◌∷◌, arith, length}
use workbuddy_cpa_plugin.Base.Text.{trim_space, is_empty}
use workbuddy_cpa_plugin.Base.Maps.{Distinct, AllEntries}
use workbuddy_cpa_plugin.Cooldown.{
  CooldownReason, QuotaScope, shared_credits, account_scope, model_scope, ModelCooldownKey,
  ModelCooldownEntry, Table, is_unset, quota_max_horizon, model_cooldown_max_entries, key_eq,
}

-- An entry that names no model holds the account, and only for used-up shared credits.
abbrev pub IsScoped : ModelCooldownKey → QuotaScope → CooldownReason → Type 0
IsScoped k scope reason =
    ((k.model_id ≡ "") × (scope ≡ account_scope) × (reason ≡ shared_credits))
    ⊎ ((is_empty k.model_id ≡ false) × (scope ≡ model_scope))

-- An entry as the code writes it, seen at a time `now`.
pub record IsEntry (now : ℕ) (k : ModelCooldownKey) (v : ModelCooldownEntry) : Type 0 where
  pub named : is_empty k.auth_id ≡ false
  pub trimmed_auth : trim_space k.auth_id ≡ k.auth_id
  pub trimmed_model : trim_space k.model_id ≡ k.model_id
  pub caused : is_unset v.reason ≡ false
  pub scoped : IsScoped k v.scope v.reason
  pub probed : v.next_probe_at ≡ v.until
  pub since : v.occurred_at ≤ v.updated_at
  pub past : v.updated_at ≤ now
  pub future : v.updated_at < v.until
  pub bounded : v.until ≤ v.updated_at + quota_max_horizon

pub record IsTable (now : ℕ) (t : Table) : Type 0 where
  pub distinct : Distinct t
  pub small : length t ≤ model_cooldown_max_entries
  pub entries : AllEntries (IsEntry now) t

later-IsEntry :
    (now later : ℕ) (k : ModelCooldownKey) (v : ModelCooldownEntry)
    → now ≤ later
    → IsEntry now k v
    → IsEntry later k v
later-IsEntry now later k v h e = record {
  named = e.named;
  trimmed_auth = e.trimmed_auth;
  trimmed_model = e.trimmed_model;
  caused = e.caused;
  scoped = e.scoped;
  probed = e.probed;
  since = e.since;
  past = omega arith;
  future = e.future;
  bounded = e.bounded;
}

later-entries :
    (now later : ℕ) (t : Table)
    → now ≤ later
    → AllEntries (IsEntry now) t
    → AllEntries (IsEntry later) t
later-entries now later [] h a = a
later-entries now later ((k, v) ∷ t) h a =
    (later-IsEntry now later k v h a.0, later-entries now later t h a.1)

-- A table stays well formed while the clock moves on.
pub later-IsTable : (now later : ℕ) (t : Table) → now ≤ later → IsTable now t → IsTable later t
later-IsTable now later t h w = record {
  distinct = w.distinct;
  small = w.small;
  entries = later-entries now later t h w.entries;
}
