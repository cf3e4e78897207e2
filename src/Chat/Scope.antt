-- ===== src/Chat/Scope.antt =====
-- How far a classified failure reaches.
use workbuddy_cpa_plugin.Base.{
  ℕ, ◌≡◌, ◌≢◌, ◌↔◌, ◌⊎◌, true, false, arith, is_some, String, not, string_eq, nat_eq,
}
use workbuddy_cpa_plugin.Base.Text.{trim_space, is_empty}
use workbuddy_cpa_plugin.Cooldown.{
  unset, shared_credits, account_scope, model_scope, is_unset, hold_key,
}
use workbuddy_cpa_plugin.Chat.{ErrorFields}
use workbuddy_cpa_plugin.Chat.Classify.{
  classify_fields, is_request_error, is_credential_error, is_frequency_error, is_denial,
  says_shared, says_depleted,
}

-- The account's shared credits are called exhausted exactly when the text or the scope speaks of a
-- shared pool, the text says that the credits are used up, and no earlier rule takes the error: a
-- request error, a rejected credential, the frequency code 6004, or a denial.
pub shared_credits_iff :
    (status : ℕ) (e : ErrorFields)
    → ((classify_fields status e).reason ≡ shared_credits) ↔ (
        (says_shared e ≡ true)
        × (says_depleted e ≡ true)
        × (is_request_error status e ≡ false)
        × (is_credential_error e ≡ false)
        × (is_frequency_error status e ≡ false)
        × (is_denial e ≡ false))
unfolding classify_fields
shared_credits_iff status e = ground arith

-- A quota failure concerns the whole account if and only if it is for shared credits, and otherwise the
-- model; and an error that is reported as a rejected credential is never a quota failure.
pub classify_fields-scope :
    (status : ℕ) (e : ErrorFields)
    → let f = classify_fields status e in
      ((f.reason ≡ unset)
        ⊎ ((f.scope ≡ account_scope) × (f.reason ≡ shared_credits))
        ⊎ ((f.scope ≡ model_scope) × (f.reason ≢ shared_credits)))
      × ((f.credential_invalid ≡ false) ⊎ (f.reason ≡ unset))
unfolding classify_fields
classify_fields-scope status e = ground arith

-- With an account and a model that are not blank, a classified error leads to a hold exactly if it
-- has a reason.
pub classify_fields-hold_key :
    (status : ℕ) (e : ErrorFields) (auth_id model : String)
    → is_empty (trim_space auth_id) ≡ false
    → is_empty (trim_space model) ≡ false
    → is_some (hold_key auth_id model (classify_fields status e))
      ≡ not (is_unset (classify_fields status e).reason)
unfolding classify_fields hold_key
classify_fields-hold_key status e auth_id model a m = ground arith
