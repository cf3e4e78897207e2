-- ===== src/Schedule.antt =====
-- The daily schedule of workbuddy/checkin.go (`scheduledInCurrentHour`, `scheduledActionsFor`,
-- `nextCheckinTime`) and workbuddy/keepalive.go (`nextKeepaliveTime`). A time is an instant in
-- nanoseconds. The local zone is a parameter: `date now h` is the instant that `time.Date` gives for the
-- hour `h` of the local date of `now`.
pub mod Soonest
mod Tests
use workbuddy_cpa_plugin.Base.{
  ℕ, ◌+◌, ◌-◌, ◌*◌, ◌/◌, ◌%◌, ◌≤◌, ◌<◌, ◌≡◌, ◌⊎◌, inl, inr, refl, sym, subst, Bool, true, false,
  ◌&&◌, ◌||◌, List, [], ◌∷◌, ◌++◌, Option, none, some, leb, ltb, if◌then◌else◌, arith, is_some,
  Bool-cases, nat_eq, ◌==◌,
}
use workbuddy_cpa_plugin.Base.Lists.{any, All}

abbrev pub hour : ℕ
hour = 3_600_000_000_000

-- `24 * time.Hour`.
abbrev pub day : ℕ
day = 86_400_000_000_000

abbrev checkin_hours : List ℕ
checkin_hours = 9 ∷ 21 ∷ []

abbrev keepalive_hours : List ℕ
keepalive_hours = 22 ∷ []

abbrev catalog_refresh_hour : ℕ
catalog_refresh_hour = 23

module _ (date : ℕ → ℕ → ℕ) where
  -- `scheduledInCurrentHour`.
  unfoldable pub scheduled_in_current_hour : ℕ → List ℕ → Bool
  scheduled_in_current_hour now hours =
      any (λ h. leb (date now h) now && ltb now (date now h + hour)) hours

  -- `scheduledActionsFor`: check-in, keepalive, and the refresh of the catalog.
  unfoldable pub scheduled_actions_for : ℕ → Bool × Bool × Bool
  unfolding scheduled_in_current_hour
  scheduled_actions_for now = (
    scheduled_in_current_hour now checkin_hours,
    scheduled_in_current_hour now keepalive_hours,
    scheduled_in_current_hour now (catalog_refresh_hour ∷ []),
  )

  -- The next time of a slot: today's, or 24 hours after it if that has passed.
  abbrev pub next_slot : ℕ → ℕ → ℕ
  next_slot now h = if ltb now (date now h) then date now h else date now h + day

  abbrev pub sooner : ℕ → Option ℕ → Option ℕ
  sooner t none = some t
  sooner t (some earliest) = some (if ltb t earliest then t else earliest)

  -- The loop of `nextCheckinTime` and `nextKeepaliveTime`, with the earliest time so far.
  unfoldable pub next_time : ℕ → Option ℕ → List ℕ → Option ℕ
  next_time now earliest [] = earliest
  next_time now earliest (h ∷ hours) = next_time now (sooner (next_slot now h) earliest) hours

  -- `nextCheckinTime`.
  unfoldable pub next_checkin_time : ℕ → Option ℕ
  unfolding next_time
  next_checkin_time now =
      next_time now none (checkin_hours ++ (keepalive_hours ++ (catalog_refresh_hour ∷ [])))

  -- `nextKeepaliveTime`.
  unfoldable pub next_keepalive_time : ℕ → Option ℕ
  unfolding next_time
  next_keepalive_time now = next_time now none keepalive_hours
