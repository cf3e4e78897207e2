-- ===== src/Cooldown.antt =====
-- workbuddy/cooldown.go and workbuddy/quota_freeze.go: the process-local table of quota holds, one
-- for each (account, model) pair and one for an account whose shared credits are used up. Times are
-- nanoseconds since Go's zero time, so `time.Time{}` is 0. The mutex makes each operation atomic.
pub mod Entries
pub mod Eviction
pub mod Invariant
pub mod History
pub mod Marking
pub mod View
pub mod Blocking
pub mod Clearing
mod Tests
use workbuddy_cpa_plugin.Base.{
  ℕ, ◌+◌, ◌*◌, ◌≡◌, ◌↔◌, Bool, true, false, ◌&&◌, ◌||◌, not, List, [], ◌∷◌, Option, none, some,
  String, arith, ltb, leb, if◌then◌else◌, Eq, ◌==◌, nat_eq, string_eq, length, is_some,
}
use workbuddy_cpa_plugin.Accounts.{CreditsSummary}
use workbuddy_cpa_plugin.Base.Int.{is_pos}
use workbuddy_cpa_plugin.Base.Text.{trim_space, is_empty}
use workbuddy_cpa_plugin.Base.Maps.{lookup, insert, delete, keep}

-- `time.Second` in nanoseconds.
abbrev pub second : ℕ
second = 1_000_000_000

abbrev pub model_cooldown_rate_limit : ℕ
model_cooldown_rate_limit = 300 * second

abbrev pub model_cooldown_unknown : ℕ
model_cooldown_unknown = 60 * second

abbrev pub model_cooldown_max_entries : ℕ
model_cooldown_max_entries = 4096

abbrev pub quota_probe_ttl : ℕ
quota_probe_ttl = 900 * second

abbrev pub quota_max_horizon : ℕ
quota_max_horizon = 86_400 * second

-- `unset` is the empty reason, `unknown` is "upstream_error".
pub data CooldownReason : Type 0 where
  unset unknown rate_limit call_quota credit_quota shared_credits : CooldownReason

pub data QuotaScope : Type 0 where
  unscoped model_scope account_scope : QuotaScope

pub record ChatFailure : Type 0 where
  pub reason : CooldownReason
  pub scope : QuotaScope
  pub evidence : String
  pub credential_invalid : Bool

pub record ModelCooldownKey : Type 0 where
  pub auth_id : String
  pub model_id : String

pub record ModelCooldownEntry : Type 0 where
  pub reason : CooldownReason
  pub scope : QuotaScope
  pub until : ℕ
  pub next_probe_at : ℕ
  pub occurred_at : ℕ
  pub updated_at : ℕ
  pub recovery_condition : String
  pub evidence : String

abbrev pub key_beq : ModelCooldownKey → ModelCooldownKey → Bool
key_beq a b = a.auth_id == b.auth_id && a.model_id == b.model_id

pub key_beq_iff : (a b : ModelCooldownKey) → (key_beq a b ≡ true) ↔ (a ≡ b)
key_beq_iff a b =
    ground (arith, string_eq.beq_iff a.auth_id b.auth_id, string_eq.beq_iff a.model_id b.model_id)

instance abbrev pub key_eq : Eq ModelCooldownKey
key_eq = record { beq = key_beq; beq_iff = key_beq_iff }

abbrev pub Table : Type 0
Table = List (ModelCooldownKey × ModelCooldownEntry)

abbrev pub pair_key : String → String → ModelCooldownKey
pair_key a m = record { auth_id = a; model_id = m }

abbrev pub is_unset : CooldownReason → Bool
is_unset unset = true
is_unset _ = false

abbrev pub is_shared : CooldownReason → Bool
is_shared shared_credits = true
is_shared _ = false

abbrev pub is_account : QuotaScope → Bool
is_account account_scope = true
is_account _ = false

pub quota_reason_strength : CooldownReason → ℕ
quota_reason_strength shared_credits = 3
quota_reason_strength call_quota = 2
quota_reason_strength credit_quota = 2
quota_reason_strength rate_limit = 1
quota_reason_strength _ = 0

-- `v.Until.After(now)`.
abbrev pub is_active : ℕ → ModelCooldownEntry → Bool
is_active now v = ltb now v.until

unfoldable pub cooldown_sweep_locked : ℕ → Table → Table
cooldown_sweep_locked now = keep (λ _ v. is_active now v)

-- The loop over the full table that picks the entry to drop: the first one with the least `until`.
pub earliest_from : ModelCooldownKey → ℕ → Table → ModelCooldownKey
earliest_from oldest earliest [] = oldest
earliest_from oldest earliest ((k, v) ∷ t) =
    let replaced = earliest_from k v.until t in
    let kept = earliest_from oldest earliest t in
    if earliest == 0 || ltb v.until earliest then replaced else kept

pub make_room : Table → Table
make_room t =
    if leb model_cooldown_max_entries (length t)
    then delete (earliest_from (pair_key "" "") 0 t) t
    else t

abbrev occurred_before : ModelCooldownEntry → ℕ
occurred_before prev = if prev.occurred_at == 0 then prev.updated_at else prev.occurred_at

abbrev pub new_entry : ℕ → ChatFailure → ℕ → ℕ → String → ModelCooldownEntry
new_entry now f occurred until recovery = record {
  reason = f.reason;
  scope = f.scope;
  until = until;
  next_probe_at = until;
  occurred_at = occurred;
  updated_at = now;
  recovery_condition = recovery;
  evidence = f.evidence;
}

-- The locked part of `markQuotaFreeze` behind the sweep.
pub store_hold : ℕ → ModelCooldownKey → ChatFailure → ℕ → String → Table → Table
store_hold now key f until recovery t = elim (lookup key t) [
  | none ↦ insert key (new_entry now f now until recovery) (make_room t)
  | some prev ↦
      if ltb (quota_reason_strength f.reason) (quota_reason_strength prev.reason)
      then t
      else if ltb until prev.until
      then insert key (new_entry now f (occurred_before prev) prev.until prev.recovery_condition) t
      else insert key (new_entry now f (occurred_before prev) until recovery) t
]

-- `markQuotaFreeze` from the clock reading on: a hold in the past is dropped, one beyond the horizon
-- becomes a bounded probe.
pub hold_until : ℕ → ModelCooldownKey → ChatFailure → ℕ → String → Table → Table
hold_until now key f until recovery t =
    if ltb now until
    then (if ltb (now + quota_max_horizon) until
        then store_hold now key f (now + quota_probe_ttl) "bounded_ttl_probe"
            (cooldown_sweep_locked now t)
        else store_hold now key f until recovery (cooldown_sweep_locked now t))
    else t

-- The key under which a failure is held, with its scope made definite; `none` where it is ignored.
unfoldable pub hold_key : String → String → ChatFailure → Option (ModelCooldownKey × ChatFailure)
hold_key auth_id model f =
    if is_empty (trim_space auth_id) || is_unset f.reason
    then none
    else if is_account f.scope
    then (if is_shared f.reason then some (pair_key (trim_space auth_id) "", f) else none)
    else if is_empty (trim_space model)
    then none
    else some (pair_key (trim_space auth_id) (trim_space model), record f { scope = model_scope })

unfoldable pub mark_quota_freeze : ℕ → String → String → ChatFailure → ℕ → String → Table → Table
unfolding hold_key hold_until store_hold make_room cooldown_sweep_locked
mark_quota_freeze now auth_id model f until recovery t = elim (hold_key auth_id model f) [
  | none ↦ t
  | some (key, f') ↦ hold_until now key f' until recovery t
]

-- `markModelCooldown`: a hold with a fixed time to live.
pub mark_model_cooldown : ℕ → String → String → CooldownReason → Table → Table
mark_model_cooldown now auth_id model reason t =
    if is_empty (trim_space auth_id) || is_empty (trim_space model)
    then t
    else mark_quota_freeze now (trim_space auth_id) (trim_space model)
        (record {
          reason = reason;
          scope = model_scope;
          evidence = "legacy_cooldown";
          credential_invalid = false;
        })
        (now
          + (elim reason [ rate_limit ↦ model_cooldown_rate_limit | _ ↦ model_cooldown_unknown ]))
        "bounded_ttl_probe" t

-- One round of the loop of `quotaFreezeFor`: an entry that ran out is deleted on the way.
pub probe : ℕ → ModelCooldownKey → Table → Table × Option ModelCooldownEntry
probe now key t = elim (lookup key t) [
  | none ↦ (t, none)
  | some v ↦ if is_active now v then (t, some v) else (delete key t, none)
]

-- The account's own hold comes before the pair's.
pub quota_freeze_for : ℕ → String → String → Table → Table × Option ModelCooldownEntry
unfolding probe
quota_freeze_for now auth_id model t =
    let auth = trim_space auth_id in
    if is_empty auth
    then (t, none)
    else let (t', found) = probe now (pair_key auth "") t in
      if is_some found then (t', found) else probe now (pair_key auth (trim_space model)) t'

-- `modelIsCooling`: the hold's end is compared with the zero time.
pub model_is_cooling : ℕ → String → String → Table → Bool
unfolding quota_freeze_for
model_is_cooling now auth_id model t = elim (quota_freeze_for now auth_id model t).1 [
  | none ↦ false
  | some v ↦ not (v.until == 0)
]

-- `coolingModelSetFor`: the swept table, and the models of the account that are held.
abbrev of_account_pair : String → ModelCooldownKey → Bool
of_account_pair auth k = k.auth_id == auth && not (is_empty k.model_id)

pub held_models : ℕ → String → Table → List String
held_models now auth [] = []
held_models now auth ((k, v) ∷ t) =
    let rest = held_models now auth t in
    if of_account_pair auth k && is_active now v then trim_space k.model_id ∷ rest else rest

pub cooling_model_set_for : ℕ → String → Table → Table × List String
unfolding held_models
cooling_model_set_for now auth_id t =
    let auth = trim_space auth_id in
    if is_empty auth
    then (t, [])
    else (keep (λ k v. not (of_account_pair auth k) || is_active now v) t, held_models now auth t)

-- `clearModelCooldown`: the table, and how many entries were removed.
unfoldable pub clear_model_cooldown : String → String → Table → Table × ℕ
clear_model_cooldown auth_id model t =
    let auth = trim_space auth_id in
    let one = trim_space model in
    if is_empty auth
    then (t, 0)
    else if not (is_empty one)
    then (if is_some (lookup (pair_key auth one) t)
        then (delete (pair_key auth one) t, 1)
        else (t, 0))
    else (keep (λ k _. not (k.auth_id == auth)) t, length (keep (λ k _. k.auth_id == auth) t))

-- `observeQuotaCredits`: only a positive balance counts, and only against a shared-credit hold.
unfoldable pub observe_quota_credits : String → Option CreditsSummary → Table → Table
observe_quota_credits auth_id none t = t
observe_quota_credits auth_id (some cr) t =
    if is_pos cr.total_remain
    then elim (lookup (pair_key (trim_space auth_id) "") t) [
      | none ↦ t
      | some v ↦ if is_shared v.reason then delete (pair_key (trim_space auth_id) "") t else t
    ]
    else t

-- `cooldownModelCount`.
pub cooldown_model_count : ℕ → String → Table → ℕ
cooldown_model_count now model t =
    if is_empty (trim_space model)
    then 0
    else length (keep (λ k v. k.model_id == trim_space model && is_active now v) t)
