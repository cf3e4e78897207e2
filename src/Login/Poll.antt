-- ===== src/Login/Poll.antt =====
-- `pollOAuthPending` of workbuddy/oauth_pending_flow.go. The replies of upstream, of the disk and of the
-- host are arguments.
use workbuddy_cpa_plugin.Base.{
  ℕ, ◌+◌, ◌-◌, ◌*◌, ◌/◌, ◌%◌, Bool, true, false, not, ◌&&◌, ◌||◌, List, ◌∷◌, Option, none, some,
  String, ltb, leb, nat_eq, ◌==◌, if◌then◌else◌,
}
use workbuddy_cpa_plugin.Base.Int.{ℤ, pos, negsuc}
use workbuddy_cpa_plugin.Base.Text.{is_empty, trim_space}
use workbuddy_cpa_plugin.Login.{
  TokenData, AccountData, PendingCookie, LoginAuth, OauthPendingRecord, LoginCtx, login_ttl,
  oauth_result_ttl, valid_oauth_state, valid_oauth_pending_record, oauth_record,
}

pub data TokenReply : Type 0 where
  no_request : TokenReply
  token_error : ℕ → TokenReply
  no_token : TokenReply
  token : TokenData → TokenReply

pub data AccountReply : Type 0 where
  no_client no_request : AccountReply
  account_error : ℕ → AccountReply
  unparsed : AccountReply
  account : AccountData → AccountReply

-- What a poll meets: whether requests may be routed, the replies with the cookies of the jar after them,
-- the time at which the token arrives,
-- whether the writes of the four checkpoints succeed, whether the credential can be encoded, and whether
-- the host acknowledges its save.
pub record World : Type 0 where
  pub now : ℕ
  pub arrival : ℕ
  pub token_cookies : List PendingCookie
  pub account_cookies : List PendingCookie
  pub routed : Bool
  pub token_reply : TokenReply
  pub account_reply : AccountReply
  pub before_account : Bool
  pub after_account : Bool
  pub after_result : Bool
  pub encodes : Bool
  pub saves : Bool
  pub after_save : Bool

-- Whether a request has been sent.
abbrev pub is_asked : TokenReply → Bool
is_asked no_request = false
is_asked _ = true

abbrev pub reaches : AccountReply → Bool
reaches no_client = false
reaches no_request = false
reaches _ = true

pub data LoginError : Type 0 where
  invalid_state expired not_routed storage request_failed token_endpoint account_endpoint
        account_parse account_missing not_encoded not_saved :
      LoginError

pub data Outcome : Type 0 where
  fails : LoginError → Outcome
  pending : Outcome
  succeeds : LoginAuth → Outcome

-- What a poll has used up: each can be had once.
pub data Use : Type 0 where
  token_used account_used saved_used : Use

pub data Place : Type 0 where
  in_states in_recent nowhere : Place

-- A login, its record on disk, the map that holds it, and what has been used up, the latest first.
pub record Flow : Type 0 where
  pub lc : LoginCtx
  pub disk : Option OauthPendingRecord
  pub place : Place
  pub used : List Use

-- A time, moved by a `time.Duration` that is kept in 64 bits, in seconds rounded down.
abbrev pub add_seconds : ℕ → ℕ → ℤ
add_seconds at n =
    let d = (n * 1_000_000_000) % 18_446_744_073_709_551_616 in
    let back = 18_446_744_073_709_551_616 - d in
    if ltb d 9_223_372_036_854_775_808
    then pos ((at + d) / 1_000_000_000)
    else if leb back at
    then pos ((at - back) / 1_000_000_000)
    else negsuc ((back - at - 1) / 1_000_000_000)

-- The expiry of a token that arrived at a time; 0 if it has none.
abbrev pub expiry : ℤ → ℕ → ℤ
expiry (pos n) at = if n == 0 then pos 0 else add_seconds at n
expiry _ at = pos 0

-- `buildLoginStoredAuth`, with the expiry that `pollOAuthPending` puts in its place.
unfoldable pub build_login_stored_auth : TokenData → ℕ → AccountData → Option LoginAuth
build_login_stored_auth t at a =
    if is_empty (trim_space t.access_token)
    then none
    else if is_empty (trim_space a.uid)
    then none
    else some (record {
      access_token = t.access_token;
      refresh_token = t.refresh_token;
      expires_at = expiry t.expires_in at;
      domain = t.domain;
      account = a;
    })

abbrev min : ℕ → ℕ → ℕ
min a b = if ltb b a then b else a

module _ (cookie_valid : String → Bool) (state : String) where
  -- `persistOAuthPending`, with the flow and whether it succeeds. A write validates the record; `writes`
  -- says whether it passes the rest: the limits on bytes and files, and the disk. `snapshot` also removes
  -- the expired cookies from the jar, which no later snapshot shows.
  unfoldable pub persist : Bool → ℕ → Flow → Flow × Bool
  persist writes now f =
      if not f.lc.stored
      then (f, true)
      else if writes && valid_oauth_pending_record cookie_valid now (oauth_record now state f.lc)
      then (record f { disk = some (oauth_record now state f.lc) }, true)
      else (f, false)

  -- `retainOAuthResult`.
  abbrev retain : Flow → Flow
  retain f = record f { place = in_recent }

  -- `removeOAuthPending`.
  abbrev pub remove : Flow → Flow
  remove f = record f { place = nowhere; disk = if f.lc.stored then none else f.disk }

  -- A stage of the poll ends it or lets the next stage go on.
  abbrev pub Stage : Type 0
  Stage = Flow × Option Outcome

  abbrev pub and_then : Stage → (Flow → Stage) → Stage
  and_then (f, some o) next = (f, some o)
  and_then (f, none) next = next f

  -- A checkpoint, and what the poll says if it fails.
  abbrev pub checkpoint : Bool → ℕ → Option Outcome → Flow → Stage
  checkpoint writes now outcome f =
      let p = persist writes now f in (p.0, if p.1 then outcome else some (fails storage))

  abbrev with_token : ℕ → TokenData → LoginCtx → LoginCtx
  with_token at t lc = record lc {
    token = some t;
    token_at = at;
    expires = min (at + oauth_result_ttl) (lc.created + (login_ttl + oauth_result_ttl));
  }

  abbrev pub receive : List PendingCookie → Flow → Flow
  receive cookies f = record f { lc = record f.lc { cookies = cookies } }

  -- The stage that obtains the token; a request has been answered.
  unfoldable pub ask_token : World → TokenReply → Flow → Stage
  unfolding persist
  ask_token w no_request f = (f, some (fails request_failed))
  ask_token w (token_error status) f =
      checkpoint w.before_account w.now
        (some (if status == 0 || leb 500 status then fails token_endpoint else pending)) f
  ask_token w no_token f = checkpoint w.before_account w.now (some pending) f
  ask_token w (token t) f =
      if is_empty t.access_token then checkpoint w.before_account w.now (some pending) f else (
        retain (record f { lc = with_token w.arrival t f.lc; used = token_used ∷ f.used }),
        none,
      )

  -- The reply to the account lookup.
  unfoldable pub take_account : World → TokenData → AccountReply → Flow → Stage
  unfolding build_login_stored_auth persist
  take_account w t no_client f = (f, some (fails not_routed))
  take_account w t no_request f = (f, some (fails request_failed))
  take_account w t (account_error status) f =
      checkpoint w.after_account w.arrival (some (fails account_endpoint)) f
  take_account w t unparsed f = (f, some (fails account_parse))
  take_account w t (account a) f = elim (build_login_stored_auth t f.lc.token_at a) [
    | none ↦ (f, some (fails account_missing))
    | some r ↦
        (record f { lc = record f.lc { result = some r }; used = account_used ∷ f.used }, none)
  ]

  -- The stage that looks up the account, with the checkpoint before it.
  unfoldable pub ask_account : World → TokenData → Flow → Stage
  unfolding take_account persist
  ask_account w t f = elim f.lc.result [
    | some r ↦ (f, none)
    | none ↦ and_then (checkpoint w.before_account w.arrival none f) (λ g.
        if reaches w.account_reply
        then take_account w t w.account_reply (receive w.account_cookies g)
        else take_account w t w.account_reply g)
  ]

  -- The stage that saves the credential, for the panel only.
  unfoldable pub save : World → Bool → Flow → Stage
  unfolding persist
  save w panel f =
      if not panel || f.lc.saved
      then (f, none)
      else if not w.encodes
      then (f, some (fails not_encoded))
      else if not w.saves
      then (f, some (fails not_saved))
      else checkpoint w.after_save w.arrival none
          (record f { lc = record f.lc { saved = true }; used = saved_used ∷ f.used })

  -- A poll whose stages all went on has a result.
  abbrev pub answer : Stage → Flow × Outcome
  answer (f, some o) = (f, o)
  answer (f, none) = elim f.lc.result [
    | none ↦ (f, fails account_missing)
    | some r ↦ (f, succeeds r)
  ]

  -- The stage for the token, if there is none yet.
  unfoldable pub need_token : World → Flow → Stage
  unfolding ask_token
  need_token w f = elim f.lc.token [
    | some t ↦ (f, none)
    | none ↦
        if not w.routed
        then (retain f, some (fails not_routed))
        else if is_asked w.token_reply
        then ask_token w w.token_reply (receive w.token_cookies f)
        else (f, some (fails request_failed))
  ]

  -- The stages after it, which a login without a token does not reach.
  unfoldable pub finish_login : World → Bool → Flow → Stage
  unfolding ask_account persist save
  finish_login w panel f = elim f.lc.token [
    | none ↦ (f, some (fails request_failed))
    | some t ↦
        and_then (ask_account w t f)
          (λ g. and_then (checkpoint w.after_result w.arrival none g) (λ h. save w panel h))
  ]

  -- `pollOAuthPending` for a login that `lookupOAuthPending` has found.
  unfoldable pub poll_oauth_pending : World → Bool → Flow → Flow × Outcome
  unfolding need_token finish_login
  poll_oauth_pending w panel f =
      if not (valid_oauth_state state)
      then (f, fails invalid_state)
      else if leb f.lc.expires w.now
      then (remove f, fails expired)
      else answer (and_then (need_token w f) (finish_login w panel))
