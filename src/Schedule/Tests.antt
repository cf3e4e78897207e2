-- ===== src/Schedule/Tests.antt =====
-- The theorem on the schedule at half past nine of the third day, in a zone without clock changes.
use workbuddy_cpa_plugin.Base.{ℕ, ◌+◌, ◌-◌, ◌*◌, ◌%◌, [], ◌∷◌, arith}
use workbuddy_cpa_plugin.Schedule.{hour, day, next_checkin_time}
use workbuddy_cpa_plugin.Schedule.Soonest.{IsEven, IsSoonest, next_checkin_time-IsSoonest}

abbrev utc : ℕ → ℕ → ℕ
utc now h = now - now % day + h * hour

abbrev half_past_nine : ℕ
half_past_nine = 207_000_000_000_000

abbrev midnight : ℕ
midnight = 172_800_000_000_000

utc-IsEven : IsEven utc half_past_nine midnight
utc-IsEven = record {
  begun = omega arith;
  lasting = omega arith;
  today = λ t h from to lt. ground arith;
  tomorrow = λ t h from to lt. ground arith;
}

next_checkin_time-IsSoonest_example :
    IsSoonest utc half_past_nine (9 ∷ 21 ∷ 22 ∷ 23 ∷ []) (next_checkin_time utc half_past_nine)
next_checkin_time-IsSoonest_example =
    next_checkin_time-IsSoonest utc half_past_nine midnight utc-IsEven
