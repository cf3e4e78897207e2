-- ===== src/Checkin/Account.antt =====
-- `checkinOneAccountFrom` of workbuddy/checkin.go, under the account's lock: reserve, decide whether
-- only to confirm, read the account, attempt, keep the status in the cache, record, release.
use workbuddy_cpa_plugin.Base.{
  ℕ, Bool, ◌&&◌, ◌||◌, not, List, [], Option, none, some, String, if◌then◌else◌, ◌==◌, string_eq,
}
use workbuddy_cpa_plugin.Accounts.{StoredAuth, is_global_domain}
use workbuddy_cpa_plugin.Cache.{AccountCache, merge_checkin_cache}
use workbuddy_cpa_plugin.Checkin.Attempt.{
  CheckinAttemptResult, outcome, failed, global, disabled, Upstream, Event, run,
  confirmed_checkin_attempt,
}
use workbuddy_cpa_plugin.Checkin.Runs.{
  RunStore, RunRecord, reserve, release, record_run, needs_confirmation, retry_mode,
}

-- An entry of `host.auth.list`.
pub record AuthFileEntry : Type 0 where
  pub auth_index : String
  pub id : String
  pub disabled : Bool

-- The clock readings of one call, in their order.
pub record Readings : Type 0 where
  pub at_reserve : ℕ
  pub at_needs : ℕ
  pub at_retry : ℕ
  pub at_merge : ℕ
  pub at_record : ℕ

-- What `hostAuthGetBundle` gives: an error, or the account and whether its file is disabled.
abbrev pub Bundle : Type 0
Bundle = Option (StoredAuth × Bool)

-- The state that the handler shares with other calls.
pub record World {ℓ} (S : Type ℓ) : Type ℓ where
  pub runs : RunStore
  pub cache : AccountCache
  pub upstream : S

pub data Reply : Type 0 where
  capacity cancelled : Reply
  recorded : RunRecord → Reply

module _ {ℓ} {S : Type ℓ} (unicode : ℕ → ℕ) (day : ℕ → String) (up : Upstream S) where
  -- `rememberResult` and the deferred release.
  unfoldable pub finish :
      AuthFileEntry
      → String
      → CheckinAttemptResult
      → ℕ
      → World S
      → List Event
      → World S × Reply × List Event
  finish f source result now w events =
      let (runs, r) = record_run day f.auth_index f.id source result now w.runs in
      (record w { runs = release f.auth_index runs }, recorded r, events)

  -- The attempt with the upstream, its status kept in the cache.
  unfoldable pub attempt :
      AuthFileEntry → String → Bool → Readings → World S → World S × Reply × List Event
  unfolding finish
  attempt f source confirm_only t w =
      let (result, s, events) = run up (confirmed_checkin_attempt confirm_only) w.upstream in
      let cache : AccountCache = elim result.status [
        | none ↦ w.cache
        | some ci ↦ merge_checkin_cache t.at_merge f.id ci w.cache
      ] in
      finish f source result t.at_record (record w { cache = cache; upstream = s }) events

  -- Behind the decision whether only to confirm.
  unfoldable pub with_account :
      AuthFileEntry → String → Bool → Readings → Bundle → World S → World S × Reply × List Event
  unfolding attempt finish
  with_account f source confirm_only t none w =
      finish f source (outcome failed "无法读取账号凭据，未发起签到" none) t.at_record w []
  with_account f source confirm_only t (some (sa, file_disabled)) w =
      if is_global_domain unicode sa.domain
      then finish f source (outcome global "当前区域不支持该签到接口" none) t.at_record w []
      else if not (source == "manual") && (f.disabled || file_disabled)
      then finish f source (outcome disabled "账号已禁用，跳过后台签到" none) t.at_record w []
      else attempt f source confirm_only t w

  -- `checkinOneAccountFrom`.
  unfoldable pub checkin_one_account_from :
      AuthFileEntry → String → Readings → Bundle → World S → World S × Reply × List Event
  unfolding with_account
  checkin_one_account_from f source t bundle w =
      let (runs, started) = reserve day f.auth_index t.at_reserve w.runs in
      let w' : World S = record w { runs = runs } in
      let (retry_confirm, is_due) = retry_mode day f.auth_index t.at_retry runs in
      if not started
      then (w', capacity, [])
      else if source == "retry"
      then (if is_due
          then with_account f source retry_confirm t bundle w'
          else (record w' { runs = release f.auth_index runs }, cancelled, []))
      else with_account f source (needs_confirmation day f.auth_index t.at_needs runs) t bundle w'
