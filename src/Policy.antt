-- ===== src/Policy.antt =====
-- workbuddy/policy.go: the decisions on an account's credits and on its being disabled, without the
-- notes that the panel shows.
use workbuddy_cpa_plugin.Base.{
  ℕ, ◌≡◌, refl, ◌↔◌, ◌⊎◌, inl, inr, sym, subst, Bool-cases, Bool, true, false, not, ◌||◌, List, [],
  ◌∷◌, ◌++◌, Option, none, some, String, any, arith, if◌then◌else◌, ◌==◌, string_eq, nat_eq,
}
use workbuddy_cpa_plugin.Base.Text.{codes, contains, to_lower, trim_space, is_empty}
use workbuddy_cpa_plugin.Accounts.{
  CreditsSummary, StoredAuth, is_credits_exhausted, is_global_domain,
}

pub data LifecycleAction : Type 0 where
  nothing disable delete reenable : LifecycleAction

-- `String`.
abbrev pub action_name : LifecycleAction → String
action_name disable = "disable"
action_name delete = "delete"
action_name reenable = "reenable"
action_name nothing = "none"

-- `shouldActOnCredits`.
abbrev pub should_act_on_credits : Option CreditsSummary → Bool
should_act_on_credits cr = is_credits_exhausted cr

abbrev pub hard_credit_markers : List String
hard_credit_markers =
    "insufficient credit" ∷ "insufficient credits" ∷ "no credit" ∷ "no credits" ∷ "credit exhausted"
    ∷ "credits exhausted" ∷ "out of credit" ∷ "out of credits" ∷ "quota exceeded" ∷ "quota exhaust"
    ∷ "payment required" ∷ "积分不足" ∷ "额度不足" ∷ "余额不足" ∷ "积分用完" ∷ "额度用尽" ∷ "额度已用尽" ∷ "没有积分"
    ∷ "credit not enough" ∷ "not enough credit" ∷ []

-- `lifecycleActionFor`.
unfoldable pub lifecycle_action_for : String → Option CreditsSummary → LifecycleAction
lifecycle_action_for region cr = if not (should_act_on_credits cr) then nothing else nothing

-- `shouldReenableCN`.
unfoldable pub should_reenable_cn : Bool → Option CreditsSummary → String → String → Bool
should_reenable_cn disabled cr reason prev_note =
    if not disabled
    then false
    else if reason == "session_dead"
    then false
    else if reason == "manual"
    then false
    else if reason == "exhausted"
    then true
    else false

-- `noteSaysExhausted`.
abbrev pub note_says_exhausted : String → Bool
note_says_exhausted note = contains (codes note) (codes "耗尽")

module _ (unicode : ℕ → ℕ) where
  -- `isHardCreditError`.
  unfoldable pub is_hard_credit_error : ℕ → String → Bool
  is_hard_credit_error status body =
      status == 402
      || any (λ m. contains (to_lower unicode (codes body)) (to_lower unicode (codes m)))
          hard_credit_markers
      || any (λ m. contains (codes body) (codes m)) hard_credit_markers

  abbrev says_limit : String → Bool
  says_limit body =
      let lower = to_lower unicode (codes body) in
      contains lower (codes "rate limit")
      || contains lower (codes "too many requests")
      || contains lower (codes "throttl")

  -- `isSoftRateLimit`.
  unfoldable pub is_soft_rate_limit : ℕ → String → Bool
  is_soft_rate_limit status body =
      if is_hard_credit_error status body
      then false
      else if status == 429
      then true
      else says_limit body

  -- `isSessionDeadNote`.
  unfoldable pub is_session_dead_note : String → Bool
  is_session_dead_note note =
      contains (to_lower unicode (codes note)) (codes "session dead")
      || contains (codes note) (codes "12153")

  -- `accountRegion`; `none` is the nil account.
  unfoldable pub account_region : Option StoredAuth → String
  account_region none = "cn"
  account_region (some sa) = if is_global_domain unicode sa.domain then "global" else "cn"

  -- `labelForAuth`, as code points.
  unfoldable pub label_for_auth : Option StoredAuth → List ℕ
  label_for_auth sa =
      let nickname : String = elim sa [ none ↦ "" | some a ↦ trim_space a.nickname ] in
      codes (if is_empty nickname then "WorkBuddy" else nickname)
      ++ (codes " ["
          ++ (codes (if account_region sa == "global" then "Global" else "CN") ++ codes "]"))

  -- An error is never both a refusal for lack of credits and a rate limit, 402 is always the first,
  -- and 429 is always one of the two.
  pub soft-hard :
      (status : ℕ) (body : String)
      → ((is_hard_credit_error status body ≡ false) ⊎ (is_soft_rate_limit status body ≡ false))
        × (is_hard_credit_error 402 body ≡ true)
        × ((is_hard_credit_error 429 body ≡ true) ⊎ (is_soft_rate_limit 429 body ≡ true))
  unfolding is_soft_rate_limit is_hard_credit_error
  soft-hard status body = ground arith

should_reenable_cn-exhausted :
    (disabled : Bool) (cr : Option CreditsSummary) (prev_note : String)
    → should_reenable_cn disabled cr "exhausted" prev_note ≡ disabled
unfolding should_reenable_cn
should_reenable_cn-exhausted true cr prev_note = refl
should_reenable_cn-exhausted false cr prev_note = refl

-- A disabled account comes back by itself exactly if it was disabled for used-up credits, whatever its
-- credits and its note say; and used-up credits alone lead to no action.
pub should_reenable_cn_iff :
    (disabled : Bool) (cr : Option CreditsSummary) (reason prev_note region : String)
    → ((should_reenable_cn disabled cr reason prev_note ≡ true)
        ↔ ((disabled ≡ true) × (reason ≡ "exhausted")))
      × (lifecycle_action_for region cr ≡ nothing)
unfolding should_reenable_cn lifecycle_action_for
should_reenable_cn_iff disabled cr reason prev_note region =
    elim (Bool-cases (reason == "exhausted")) [
      | inl used_up ↦
          let same : reason ≡ "exhausted" = (string_eq.beq_iff reason "exhausted").0 used_up in
          let back =
            subst (λ r. should_reenable_cn disabled cr r prev_note ≡ disabled) (sym same)
              (should_reenable_cn-exhausted disabled cr prev_note) in
          ground (arith, same, back)
      | inr other ↦ ground (arith, other, string_eq.beq_iff reason "exhausted")
    ]
