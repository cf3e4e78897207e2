-- ===== src/Checkin/Attempt.antt =====
-- `confirmedCheckinAttempt` of workbuddy/checkin_state.go and the error of workbuddy/checkin_http.go.
-- The attempt is a program that asks the upstream; `run` plays it against any upstream.
use workbuddy_cpa_plugin.Base.{
  Bool, true, false, ◌&&◌, not, List, [], ◌∷◌, Option, none, some, String, if◌then◌else◌, ◌==◌,
  string_eq, is_some,
}
use Prim.Native.String
use workbuddy_cpa_plugin.Accounts.{CheckinSummary}
use workbuddy_cpa_plugin.Json.{Json, bool, Fields, get}

pub record CheckinRequestError : Type 0 where
  pub kind : String
  pub retryable : Bool
  pub uncertain : Bool

-- An error that `errors.As` finds to be a `checkinRequestError`, or any other.
pub data CheckinError : Type 0 where
  request : CheckinRequestError → CheckinError
  other : CheckinError

pub error_text : String → String
error_text kind =
    if kind == "auth"
    then "登录已失效或无权签到，请重新登录；不会自动重试"
    else if kind == "transport"
    then "签到连接失败或超时，将有限次数重试/核实"
    else if kind == "rate_limit"
    then "签到接口暂时限流，将有限次数重试"
    else if kind == "server"
    then "签到服务暂时不可用，将有限次数重试"
    else if kind == "already"
    then "上游提示已签到，仍需查询状态确认"
    else if kind == "protocol"
    then "签到响应格式异常，未确认成功"
    else if kind == "not_found"
    then "签到接口不存在"
    else "上游拒绝签到，请检查账号或活动资格；不会自动重试"

pub checkin_error_message : CheckinError → String
unfolding error_text
checkin_error_message (request e) = error_text e.kind
checkin_error_message other = "签到请求失败，请检查连接或登录状态"

abbrev pub checkin_error_retryable : Option CheckinError → Bool
checkin_error_retryable (some (request e)) = e.retryable
checkin_error_retryable _ = false

abbrev pub checkin_error_uncertain : Option CheckinError → Bool
checkin_error_uncertain (some (request e)) = e.uncertain
checkin_error_uncertain _ = false

abbrev pub is_checkin_already_error : Option CheckinError → Bool
is_checkin_already_error (some (request e)) = e.kind == "already"
is_checkin_already_error _ = false

pub data RunState : Type 0 where
  running failed already pending_confirmation no_activity success global disabled : RunState

pub record CheckinAttemptResult : Type 0 where
  pub state : RunState
  pub message : String
  pub confirmed : Bool
  pub retryable : Bool
  pub confirm_only : Bool
  pub status : Option CheckinSummary
  pub receipt : Option Fields

-- What the two upstream calls give: a nil pointer, a map or an error.
pub data StatusReply : Type 0 where
  status_error : CheckinError → StatusReply
  status_ok : Option CheckinSummary → StatusReply

pub record ClaimReply : Type 0 where
  pub receipt : Option Fields
  pub error : Option CheckinError

pub data Protocol : Type 0 where
  done : CheckinAttemptResult → Protocol
  ask_status : (StatusReply → Protocol) → Protocol
  send_claim : (ClaimReply → Protocol) → Protocol

abbrev pub outcome : RunState → String → Option CheckinSummary → CheckinAttemptResult
outcome state message status = record {
  state = state;
  message = message;
  confirmed = false;
  retryable = false;
  confirm_only = false;
  status = status;
  receipt = none;
}

-- `receipt != nil && receipt["success"] == false`.
abbrev pub is_false : Option Json → Bool
is_false (some (bool false)) = true
is_false _ = false

abbrev pub is_refused : Option Fields → Bool
is_refused none = false
is_refused (some fields) = is_false (get "success" fields)

abbrev message_of : Option CheckinError → String
message_of none = ""
message_of (some e) = checkin_error_message e

-- After the claim and the second status, where that status does not confirm.
unfoldable pub unconfirmed :
    CheckinSummary → ClaimReply → Option CheckinError → CheckinAttemptResult
unfolding checkin_error_message
unconfirmed ci claim verify_error =
    if is_some verify_error && not (checkin_error_retryable verify_error)
    then record (outcome failed (String.◌++◌ "领取后验证失败：" (message_of verify_error)) (some ci)) {
      confirm_only = true;
    }
    else if checkin_error_retryable claim.error
    then record (outcome failed (message_of claim.error) (some ci)) {
      retryable = true;
      confirm_only = checkin_error_uncertain claim.error;
    }
    else if is_refused claim.receipt && not (is_checkin_already_error claim.error)
    then outcome failed "上游明确拒绝领取；状态未确认" (some ci)
    else record (outcome pending_confirmation "上游已受理，签到尚未确认；稍后只复查状态" (some ci)) {
      retryable = true;
      confirm_only = true;
    }

-- After the claim, on the second status.
unfoldable pub verify : CheckinSummary → ClaimReply → StatusReply → CheckinAttemptResult
verify ci claim (status_error e) = unconfirmed ci claim (some e)
verify ci claim (status_ok none) = unconfirmed ci claim none
verify ci claim (status_ok (some ci2)) =
    if ci2.today_checked_in
    then record {
      state = if is_checkin_already_error claim.error then already else success;
      message = if is_checkin_already_error claim.error then "今日已签到（上游状态已确认）" else "签到已确认（上游状态已更新）";
      confirmed = true;
      retryable = false;
      confirm_only = false;
      status = some ci2;
      receipt = claim.receipt;
    }
    else unconfirmed ci2 claim none

abbrev pub is_definite : Option CheckinError → Bool
is_definite error =
    is_some error
    && not (checkin_error_retryable error)
    && not (is_checkin_already_error error)
    && not (checkin_error_uncertain error)

-- After the claim. A definite rejection ends the attempt without a second status.
unfoldable pub claimed : CheckinSummary → ClaimReply → Protocol
unfolding checkin_error_message
claimed ci claim =
    if is_definite claim.error
    then done (outcome failed (message_of claim.error) (some ci))
    else ask_status (λ reply. done (verify ci claim reply))

-- On the first status.
unfoldable pub first_status : Bool → StatusReply → Protocol
unfolding checkin_error_message
first_status confirm_only (status_error e) =
    done (record (outcome failed (checkin_error_message e) none) {
      retryable = checkin_error_retryable (some e);
      confirm_only = confirm_only;
    })
first_status confirm_only (status_ok none) =
    done (record (outcome failed "签到状态缺失，未发起领取" none) { confirm_only = confirm_only })
first_status confirm_only (status_ok (some ci)) =
    if ci.today_checked_in
    then done (record (outcome already "今日已签到（上游状态已确认）" (some ci)) { confirmed = true })
    else if confirm_only
    then done (record (outcome pending_confirmation "领取结果尚未确认，将有限次数复查；不重复提交领取" (some ci)) {
      retryable = true;
      confirm_only = true;
    })
    else if not ci.active
    then done (outcome no_activity "当前无可签到活动" (some ci))
    else send_claim (claimed ci)

-- `confirmedCheckinAttempt`.
unfoldable pub confirmed_checkin_attempt : Bool → Protocol
confirmed_checkin_attempt confirm_only = ask_status (first_status confirm_only)

-- An upstream with a state of its own.
pub record Upstream {ℓ} (S : Type ℓ) : Type ℓ where
  pub status : S → StatusReply × S
  pub claim : S → ClaimReply × S

pub data Event : Type 0 where
  asked : StatusReply → Event
  sent : ClaimReply → Event

-- The result, the upstream's state, and the calls that were made, with their replies.
unfoldable pub run {ℓ} :
    {S : Type ℓ} → Upstream S → Protocol → S → CheckinAttemptResult × S × List Event
run up (done r) s = (r, s, [])
run up (ask_status k) s =
    let (reply, s1) = up.status s in
    let (r, s2, events) = run up (k reply) s1 in (r, s2, asked reply ∷ events)
run up (send_claim k) s =
    let (reply, s1) = up.claim s in
    let (r, s2, events) = run up (k reply) s1 in (r, s2, sent reply ∷ events)
