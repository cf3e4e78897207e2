-- ===== src/Cooldown/Clearing.antt =====
-- Clearing holds by hand, and by a positive credit balance.
use workbuddy_cpa_plugin.Base.{
  ℕ, ◌+◌, ◌≡◌, Bool, [], ◌∷◌, none, some, arith, if◌then◌else◌, length, ◌==◌, String, not,
  string_eq, ◌&&◌, ◌||◌,
}
use workbuddy_cpa_plugin.Base.Text.{trim_space, is_empty}
use workbuddy_cpa_plugin.Base.Maps.{keep, Distinct, lookup-keep, lookup-delete, length-delete}
use workbuddy_cpa_plugin.Accounts.{CreditsSummary}
use workbuddy_cpa_plugin.Base.Int.{is_pos}
use workbuddy_cpa_plugin.Cooldown.{
  ModelCooldownKey, Table, key_eq, pair_key, clear_model_cooldown, observe_quota_credits, is_shared,
}
use workbuddy_cpa_plugin.Cooldown.View.{held}

-- Whether a call of `clearModelCooldown` is about a key.
abbrev pub is_cleared : String → String → ModelCooldownKey → Bool
is_cleared auth_id model j =
    not (is_empty (trim_space auth_id))
    && j.auth_id == trim_space auth_id
    && (is_empty (trim_space model) || j.model_id == trim_space model)

length-keep-split :
    (p : ModelCooldownKey → Bool) (t : Table)
    → length t ≡ length (keep (λ k _. not (p k)) t) + length (keep (λ k _. p k) t)
unfolding keep
length-keep-split p [] = omega arith
length-keep-split p ((k, v) ∷ t) = ground (arith, length-keep-split p t)

-- Clearing a pair, or all pairs of an account, takes exactly those holds out of force, leaves every
-- other as it was, and reports the number of entries that the table lost.
pub clear_model_cooldown-held :
    (now : ℕ) (auth_id model : String) (t : Table)
    → Distinct t
    → ((j : ModelCooldownKey)
        → held now (clear_model_cooldown auth_id model t).0 j
          ≡ (if is_cleared auth_id model j then none else held now t j))
      × (length t
          ≡ length (clear_model_cooldown auth_id model t).0
            + (clear_model_cooldown auth_id model t).1)
unfolding clear_model_cooldown
clear_model_cooldown-held now auth_id model t d =
    let auth = trim_space auth_id in
    let pair = pair_key auth (trim_space model) in
    (
      λ j. ground (
        arith,
        lookup-delete pair j t d,
        lookup-keep (λ k _. not (k.auth_id == auth)) j t d,
        key_eq.beq_iff j pair,
        string_eq.beq_iff j.auth_id auth,
        string_eq.beq_iff j.model_id (trim_space model),
      ),
      ground (arith, length-delete pair t d, length-keep-split (λ k. k.auth_id == auth) t),
    )

-- A credit summary lifts the hold on the account as a whole if the balance is positive and the hold
-- is for shared credits; every other hold, and every hold on a model, stays as it was.
pub observe_quota_credits-held :
    (now : ℕ) (auth_id : String) (cr : CreditsSummary) (t : Table) (j : ModelCooldownKey)
    → Distinct t
    → held now (observe_quota_credits auth_id (some cr) t) j ≡ (elim (held now t j) [
      | none ↦ none
      | some v ↦
          if is_pos cr.total_remain && j == pair_key (trim_space auth_id) "" && is_shared v.reason
          then none
          else some v
    ])
unfolding observe_quota_credits
observe_quota_credits-held now auth_id cr t j d =
    let own = pair_key (trim_space auth_id) "" in
    ground (arith, lookup-delete own j t d, key_eq.beq_iff j own)
