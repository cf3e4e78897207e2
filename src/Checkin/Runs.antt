-- ===== src/Checkin/Runs.antt =====
-- `checkinRunStore` of workbuddy/checkin_state.go: the last result of each account, the history, and
-- the accounts at work. The mutex makes each method atomic. `day` is the local date of a time.
use workbuddy_cpa_plugin.Base.{
  ℕ, ◌+◌, ◌*◌, ◌-◌, Bool, true, false, ◌&&◌, ◌||◌, not, List, [], ◌∷◌, ◌++◌, Option, none, some,
  String, if◌then◌else◌, ◌==◌, nat_eq, string_eq, length, drop, is_some, ltb, leb, get_elem?,
}
use workbuddy_cpa_plugin.Base.Maps.{lookup, insert, delete}
use workbuddy_cpa_plugin.Cooldown.{second}
use workbuddy_cpa_plugin.Checkin.Attempt.{CheckinAttemptResult, RunState, running, failed}

abbrev pub checkin_retry_delays : List ℕ
checkin_retry_delays = (60 * second) ∷ (120 * second) ∷ (300 * second) ∷ []

abbrev pub checkin_history_limit : ℕ
checkin_history_limit = 100

abbrev pub checkin_latest_limit : ℕ
checkin_latest_limit = 512

pub record RunRecord : Type 0 where
  pub auth_index : String
  pub auth_id : String
  pub source : String
  pub day : String
  pub state : RunState
  pub message : String
  pub at : ℕ
  pub retry_count : ℕ
  pub next_retry_at : ℕ
  pub confirm_only : Bool
  pub confirmed : Bool
  pub retry_allowed : Bool
  pub manual : Bool

pub record RunStore : Type 0 where
  pub latest : List (String × RunRecord)
  pub history : List RunRecord
  pub in_flight : List (String × Bool)

-- `s.inFlight[index]`.
abbrev pub is_in_flight : String → RunStore → Bool
is_in_flight index s = elim (lookup index s.in_flight) [ none ↦ false | some b ↦ b ]

unfoldable pub release : String → RunStore → RunStore
release index s = record s { in_flight = delete index s.in_flight }

unfoldable pub cancel : String → RunStore → RunStore
cancel index s = elim (lookup index s.latest) [
  | none ↦ s
  | some r ↦ record s {
    latest = insert index (record r { retry_allowed = false; next_retry_at = 0 }) s.latest;
  }
]

-- The last entries of a history, as many as the limit allows.
abbrev pub trim_history : List RunRecord → List RunRecord
trim_history h =
    if ltb checkin_history_limit (length h) then drop (length h - checkin_history_limit) h else h

-- The store with a record as the account's latest and at the end of the history.
abbrev pub with_record : String → RunRecord → RunStore → RunStore
with_record index r s = record s {
  latest = insert index r s.latest;
  history = trim_history (s.history ++ r ∷ []);
}

module _ (day : ℕ → String) where
  -- A record with the given index, source, time, state and message, and zero values elsewhere.
  abbrev pub blank_record : String → String → ℕ → RunState → String → RunRecord
  blank_record index source now state message = record {
    auth_index = index;
    auth_id = "";
    source = source;
    day = day now;
    state = state;
    message = message;
    at = now;
    retry_count = 0;
    next_retry_at = 0;
    confirm_only = false;
    confirmed = false;
    retry_allowed = false;
    manual = false;
  }

  -- Whether `makeRoomLocked` must leave an entry.
  abbrev pub is_protected : RunStore → ℕ → String → RunRecord → Bool
  is_protected s now k v =
      is_in_flight k s
      || (v.day == day now
          && ((v.confirm_only && not v.confirmed) || v.retry_allowed || ltb 0 v.retry_count))

  -- The loop of `makeRoomLocked`: the oldest entry that may go; "" if there is none.
  unfoldable pub oldest_from : RunStore → ℕ → String → ℕ → List (String × RunRecord) → String
  oldest_from s now oldest at [] = oldest
  oldest_from s now oldest at ((k, v) ∷ m) =
      let replaced = oldest_from s now k v.at m in
      let kept = oldest_from s now oldest at m in
      if is_protected s now k v
      then kept
      else if oldest == "" || ltb v.at at
      then replaced
      else kept

  unfoldable pub make_room_locked : RunStore → ℕ → RunStore × Bool
  make_room_locked s now =
      if ltb (length s.latest) checkin_latest_limit
      then (s, true)
      else let oldest = oldest_from s now "" 0 s.latest in
        if oldest == "" then (s, false) else (record s { latest = delete oldest s.latest }, true)

  -- `reserve`: whether the account's task may start.
  unfoldable pub reserve : String → ℕ → RunStore → RunStore × Bool
  unfolding make_room_locked
  reserve index now s =
      if index == "" || is_in_flight index s
      then (s, false)
      else if is_some (lookup index s.latest)
      then (record s { in_flight = insert index true s.in_flight }, true)
      else let (s', room) = make_room_locked s now in
        if room
        then (
          record s' {
            latest = insert index (blank_record index "" now running "") s'.latest;
            in_flight = insert index true s'.in_flight;
          },
          true,
        )
        else (s', false)

  -- How many retries a new record counts, given the record before it.
  abbrev pub retries_after : String → ℕ → Option RunRecord → ℕ
  retries_after source now none = 0
  retries_after source now (some previous) =
      if previous.day == day now
      then (if source == "retry" then previous.retry_count + 1 else previous.retry_count)
      else 0

  abbrev pub manual_after : String → ℕ → Option RunRecord → Bool
  manual_after source now none = source == "manual"
  manual_after source now (some previous) =
      if previous.day == day now && source == "retry" then previous.manual else source == "manual"

  -- A later failure must not erase an uncertain claim.
  abbrev pub confirm_only_after : ℕ → CheckinAttemptResult → Option RunRecord → Bool
  confirm_only_after now result none = result.confirm_only
  confirm_only_after now result (some previous) =
      if previous.day == day now && previous.confirm_only && not result.confirmed
      then true
      else result.confirm_only

  -- The time of the next retry: within the budget, and on the same day.
  abbrev pub next_retry : ℕ → CheckinAttemptResult → ℕ → Option ℕ
  next_retry now result retries =
      if result.retryable
      then elim (get_elem? checkin_retry_delays retries) [
        | none ↦ none
        | some delay ↦ if day (now + delay) == day now then some (now + delay) else none
      ]
      else none

  -- The record that `record` writes.
  unfoldable pub new_record :
      String → String → String → CheckinAttemptResult → ℕ → Option RunRecord → RunRecord
  new_record index id source result now previous =
      let retries = retries_after source now previous in
      record {
        auth_index = index;
        auth_id = id;
        source = source;
        day = day now;
        state = result.state;
        message = result.message;
        at = now;
        retry_count = retries;
        next_retry_at = elim (next_retry now result retries) [ none ↦ 0 | some at ↦ at ];
        confirm_only = confirm_only_after now result previous;
        confirmed = result.confirmed;
        retry_allowed = is_some (next_retry now result retries);
        manual = manual_after source now previous;
      }

  -- `record`.
  unfoldable pub record_run :
      String → String → String → CheckinAttemptResult → ℕ → RunStore → RunStore × RunRecord
  unfolding make_room_locked new_record
  record_run index id source result now s =
      let r = new_record index id source result now (lookup index s.latest) in
      if is_some (lookup index s.latest)
      then (with_record index r s, r)
      else let (s', room) = make_room_locked s now in
        if room
        then (with_record index r s', r)
        else (s', blank_record index source now failed "签到任务容量已满，请等待现有任务完成")

  -- One round of the loop of `due`: what becomes of a record.
  abbrev pub stale : ℕ → Bool → RunRecord → Bool
  stale now auto_enabled r = not (r.day == day now) || (not auto_enabled && not r.manual)

  unfoldable pub refresh : ℕ → Bool → List (String × RunRecord) → List (String × RunRecord)
  refresh now auto_enabled [] = []
  refresh now auto_enabled ((k, r) ∷ m) =
      (
        k,
        (if stale now auto_enabled r
            then record r { next_retry_at = 0; retry_allowed = false }
            else r),
      )
      ∷ refresh now auto_enabled m

  abbrev pub is_due : ℕ → Bool → RunRecord → Bool
  is_due now auto_enabled r =
      not (stale now auto_enabled r)
      && r.retry_allowed
      && not (r.next_retry_at == 0)
      && leb r.next_retry_at now

  due_keys : ℕ → Bool → List (String × RunRecord) → List String
  due_keys now auto_enabled [] = []
  due_keys now auto_enabled ((k, r) ∷ m) =
      let rest = due_keys now auto_enabled m in if is_due now auto_enabled r then k ∷ rest else rest

  -- `due`.
  unfoldable pub due : ℕ → Bool → RunStore → RunStore × List String
  unfolding refresh due_keys
  due now auto_enabled s =
      (record s { latest = refresh now auto_enabled s.latest }, due_keys now auto_enabled s.latest)

  -- `needsConfirmation`.
  unfoldable pub needs_confirmation : String → ℕ → RunStore → Bool
  needs_confirmation index now s = elim (lookup index s.latest) [
    | none ↦ false
    | some r ↦ r.day == day now && r.confirm_only && not r.confirmed
  ]

  -- `retryMode`: whether only to confirm, and whether the retry is due.
  unfoldable pub retry_mode : String → ℕ → RunStore → Bool × Bool
  retry_mode index now s = elim (lookup index s.latest) [
    | none ↦ (false, false)
    | some r ↦ (r.confirm_only, r.retry_allowed && r.day == day now && leb r.next_retry_at now)
  ]
