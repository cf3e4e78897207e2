-- ===== src/Chat/Classify.antt =====
-- `classifyChatFailure` and `chatUpstreamError` of workbuddy/chat_error.go.
use workbuddy_cpa_plugin.Base.{
  ℕ, Bool, true, false, not, ◌&&◌, ◌||◌, [], ◌∷◌, Option, String, if◌then◌else◌, ◌==◌, nat_eq,
  string_eq,
}
use workbuddy_cpa_plugin.Base.Text.{codes, runes_eq}
use workbuddy_cpa_plugin.Json.{Json}
use workbuddy_cpa_plugin.Cooldown.{
  CooldownReason, unset, rate_limit, call_quota, credit_quota, shared_credits, QuotaScope, unscoped,
  model_scope, account_scope, ChatFailure, is_unset,
}
use workbuddy_cpa_plugin.Chat.{ErrorFields, chat_contains, chat_error_fields}

abbrev pub no_failure : ChatFailure
no_failure = record { reason = unset; scope = unscoped; evidence = ""; credential_invalid = false }

abbrev pub quota : CooldownReason → QuotaScope → String → ChatFailure
quota reason scope evidence = record {
  reason = reason;
  scope = scope;
  evidence = evidence;
  credential_invalid = false;
}

-- Each test of the classification, over the fields of the error and the status.
pub is_request_error : ℕ → ErrorFields → Bool
is_request_error status e =
    e.code == "11101"
    || e.code == "11102"
    || e.code == "11103"
    || e.code == "11115"
    || e.code == "11128"
    || status == 413
    || chat_contains e.text (
        "context length" ∷ "context window" ∷ "prompt too long" ∷ "prompt is too long"
        ∷ "too many tokens" ∷ "输入过长" ∷ "上下文过长" ∷ [])

pub is_credential_error : ErrorFields → Bool
is_credential_error e =
    e.code == "12153"
    || chat_contains e.text (
        "offline user session not found" ∷ "invalid token" ∷ "token expired" ∷ "token has expired"
        ∷ "invalid_grant" ∷ "登录已失效" ∷ "登录失效" ∷ [])

pub is_frequency_error : ℕ → ErrorFields → Bool
is_frequency_error status e = e.code == "6004" && (status == 429 || status == 200 || status == 0)

pub is_denial : ErrorFields → Bool
is_denial e = chat_contains e.text (
    "not exhausted" ∷ "not exceeded" ∷ "not reached" ∷ "quota available" ∷ "未耗尽" ∷ "未达到" ∷ "尚未用尽"
    ∷ [])

pub says_credit : ErrorFields → Bool
says_credit e = chat_contains e.text (
    "insufficient credit" ∷ "insufficient shared credit" ∷ "insufficient account credit"
    ∷ "no credit left" ∷ "no credits left" ∷ "credit exhausted" ∷ "credits exhausted"
    ∷ "out of credit" ∷ "credit not enough" ∷ "not enough credit" ∷ "积分不足" ∷ "积分耗尽" ∷ "积分已耗尽"
    ∷ "积分用完" ∷ "积分已用尽" ∷ "积分用尽" ∷ "没有积分" ∷ "余额不足" ∷ [])

pub says_shared : ErrorFields → Bool
says_shared e =
    chat_contains e.text (
      "shared credit" ∷ "account credit" ∷ "account-wide credit" ∷ "共享积分" ∷ "账户积分" ∷ "账号积分" ∷ "帐户积分"
      ∷ [])
    || runes_eq e.scope (codes "account")
    || runes_eq e.scope (codes "shared")

pub says_depleted : ErrorFields → Bool
says_depleted e = chat_contains e.text (
    "credit exhausted" ∷ "credits exhausted" ∷ "credits depleted" ∷ "credit balance exhausted"
    ∷ "out of credit" ∷ "no credits left" ∷ "no credit left" ∷ "积分耗尽" ∷ "积分已耗尽" ∷ "积分用完" ∷ "积分已用尽"
    ∷ "积分用尽" ∷ "没有积分" ∷ [])

pub says_call_quota : ErrorFields → Bool
says_call_quota e =
    (chat_contains e.text ("daily" ∷ "per day" ∷ "今日" ∷ "每日" ∷ "当天" ∷ "每天" ∷ [])
      && chat_contains e.text ("quota" ∷ "allowance" ∷ "limit" ∷ "额度" ∷ "上限" ∷ "次数" ∷ "用量" ∷ [])
      && chat_contains e.text (
          "exceeded" ∷ "exhausted" ∷ "reached" ∷ "used up" ∷ "已达" ∷ "达到" ∷ "用尽" ∷ "耗尽" ∷ "超出" ∷ "超过"
          ∷ "用完" ∷ []))
    || chat_contains e.text (
        "quota exceeded" ∷ "quota exhausted" ∷ "quota reached" ∷ "call limit reached"
        ∷ "request limit reached" ∷ "调用次数已达上限" ∷ "调用额度已用尽" ∷ "请求次数已达上限" ∷ "额度不足" ∷ "额度用尽" ∷ "额度已用尽"
        ∷ [])

pub says_rate_limit : ℕ → ErrorFields → Bool
says_rate_limit status e =
    status == 429
    || chat_contains e.text
        ("rate limit" ∷ "too many requests" ∷ "throttl" ∷ "频率限制" ∷ "请求过于频繁" ∷ [])

-- `classifyChatFailure` behind the reading of the fields.
unfoldable pub classify_fields : ℕ → ErrorFields → ChatFailure
classify_fields status e =
    if is_request_error status e
    then no_failure
    else if is_credential_error e
    then record {
      reason = unset;
      scope = account_scope;
      evidence = "credential_rejected";
      credential_invalid = true;
    }
    else if is_frequency_error status e
    then quota rate_limit model_scope "workbuddy_6004"
    else if is_denial e
    then no_failure
    else if says_credit e || says_depleted e
    then (if says_shared e && says_depleted e
        then quota shared_credits account_scope "explicit_shared_credit_exhaustion"
        else quota credit_quota model_scope "credit_refusal_scope_unproven")
    else if says_call_quota e
    then quota call_quota model_scope "explicit_call_allowance_rejection"
    else if says_rate_limit status e
    then quota rate_limit model_scope "temporary_rate_limit"
    else no_failure

module _ (unicode : ℕ → ℕ) (decode : String → Option Json) where
  unfoldable pub classify_chat_failure : ℕ → String → ChatFailure
  unfolding classify_fields is_request_error is_credential_error is_frequency_error is_denial
      says_credit says_shared says_depleted says_call_quota says_rate_limit
  classify_chat_failure status body = classify_fields status (chat_error_fields unicode decode body)

-- `upstreamStatusError`: the host reads `status`; `message` names what the text is made of.
pub data Message : Type 0 where
  quota_hold : CooldownReason → QuotaScope → Message
  credential_invalid : Message
  scope_unconfirmed : Message
  upstream : ℕ → String → Message

pub record UpstreamStatusError : Type 0 where
  pub code : String
  pub status : ℕ
  pub message : Message

abbrev pub says_billing : ErrorFields → Bool
says_billing e = chat_contains e.text ("quota" ∷ "credit" ∷ "allowance" ∷ "额度" ∷ "积分" ∷ "限额" ∷ [])

-- `chatUpstreamError`, from the classification and the fields; `excerpt` is the redacted body.
unfoldable pub surface : ℕ → ErrorFields → ChatFailure → String → UpstreamStatusError
surface status e f excerpt =
    if not (is_unset f.reason)
    then record { code = "workbuddy_quota_hold"; status = 0; message = quota_hold f.reason f.scope }
    else if f.credential_invalid
    then record {
      code = "workbuddy_credential_invalid";
      status = 401;
      message = credential_invalid;
    }
    else if status == 402 || status == 403 || (status == 401 && says_billing e)
    then record { code = "workbuddy_scope_unconfirmed"; status = 0; message = scope_unconfirmed }
    else record { code = ""; status = status; message = upstream status excerpt }

module _ (unicode : ℕ → ℕ) (decode : String → Option Json)
    (truncate_redacted : String → String) where
  unfoldable pub chat_upstream_error : ℕ → String → UpstreamStatusError
  unfolding surface
  chat_upstream_error status body =
      surface status (chat_error_fields unicode decode body)
        (classify_chat_failure unicode decode status body) (truncate_redacted body)
