-- ===== src/Checkin/Tests.antt =====
-- The theorems on the daily check-in at a concrete upstream and store.
use workbuddy_cpa_plugin.Base.{
  ◌+◌, ◌≤◌, ℕ, ◌+◌, ◌≡◌, refl, ◌⊎◌, inr, true, false, List, [], ◌∷◌, ◌++◌, none, some, String,
  arith, string_eq, ltb, if◌then◌else◌,
}
use workbuddy_cpa_plugin.Base.Int.{pos}
use workbuddy_cpa_plugin.Base.Maps.{lookup}
use workbuddy_cpa_plugin.Checkin.Attempt.{
  pending_confirmation, status_ok, ClaimReply, Upstream, run, confirmed_checkin_attempt,
  first_status, claimed, request,
}
use workbuddy_cpa_plugin.Checkin.Claims.{
  IsCallOrder, attempt-IsCallOrder, attempt-confirmed, attempt-retry, last_says,
}
use workbuddy_cpa_plugin.Checkin.Runs.{RunRecord}
use workbuddy_cpa_plugin.Checkin.Account.{
  World, AuthFileEntry, Readings, Bundle, checkin_one_account_from,
}
use workbuddy_cpa_plugin.Checkin.Bounds.{IsStore}
use workbuddy_cpa_plugin.Checkin.Checkpoint.{
  IsPending, IsConfirmed, IsOnDay, checkin_one_account_from-IsPending,
}
use workbuddy_cpa_plugin.Checkin.Counted.{counted}
use workbuddy_cpa_plugin.Checkin.Retries.{retries, run_steps-retries}
use workbuddy_cpa_plugin.Checkin.History.{
  Step, check, sweep, stop, claims_of, run_steps, run_steps-IsStore, run_steps-claims,
}

-- A claim that ends in a timeout.
abbrev lost : ClaimReply
lost = record {
  receipt = none;
  error = some (request record { kind = "transport"; retryable = true; uncertain = true });
}

-- An upstream on which the activity runs, and which loses the answer to the claim; the state is the
-- number of claims, and the status follows it at once.
abbrev upstream : Upstream ℕ
upstream = record {
  status = λ n. (
    status_ok (
        some record {
          active = true;
          today_checked_in = ltb 1 n;
          streak_days = pos 0;
          daily_credit = pos 100;
        }),
    n,
  );
  claim = λ n. (lost, n + 1);
}

attempt-IsCallOrder_example : IsCallOrder false (run upstream (confirmed_checkin_attempt false) 0).2
attempt-IsCallOrder_example = attempt-IsCallOrder upstream false 0

attempt-confirmed_example :
    let (r, _, es) = run upstream (confirmed_checkin_attempt false) 0 in
    r.confirmed ≡ last_says false es
attempt-confirmed_example = attempt-confirmed upstream false 0

attempt-retry_example :
    let r = (run upstream (confirmed_checkin_attempt false) 0).0 in
    (r.confirmed ≡ true) ⊎ (r.confirm_only ≡ true) ⊎ (r.retryable ≡ false)
unfolding run confirmed_checkin_attempt first_status claimed
attempt-retry_example = attempt-retry upstream false 0 lost refl refl

abbrev day_of : ℕ → String
day_of t = if ltb t 1000 then "2026-01-01" else "2026-01-02"

abbrev rune_of : ℕ → ℕ
rune_of c = c

abbrev lost_today : RunRecord
lost_today = record {
  auth_index = "a";
  auth_id = "a.json";
  source = "auto";
  day = "2026-01-01";
  state = pending_confirmation;
  message = "";
  at = 10;
  retry_count = 1;
  next_retry_at = 40;
  confirm_only = true;
  confirmed = false;
  retry_allowed = true;
  manual = false;
}

abbrev world : World ℕ
world = record {
  runs = record { latest = ("a", lost_today) ∷ []; history = lost_today ∷ []; in_flight = [] };
  cache = [];
  upstream = 1;
}

abbrev file_of : String → AuthFileEntry
file_of index = record { auth_index = index; id = index; disabled = false }

abbrev readings : Readings
readings = record { at_reserve = 50; at_needs = 50; at_retry = 50; at_merge = 55; at_record = 60 }

abbrev bundle : Bundle
bundle = some (record { domain = "www.codebuddy.cn"; uid = "u"; nickname = "n" }, false)

abbrev steps : List Step
steps =
    sweep 50 true
    ∷ check (file_of "b") "auto" readings bundle
    ∷ check (file_of "a") "retry" readings bundle
    ∷ stop "b"
    ∷ []

world-IsStore : IsStore world.runs
unfolding lookup
world-IsStore = record {
  distinct = (refl, tt);
  small = omega arith;
  short = omega arith;
  records = (record { counted = omega arith; allowed = inr (omega arith) }, tt);
}

world-IsPending : IsPending "2026-01-01" "a" world.runs
unfolding lookup
world-IsPending = (lost_today, refl, refl, refl, refl)

readings-IsOnDay : IsOnDay day_of "2026-01-01" readings
readings-IsOnDay = record { reserves = refl; needs = refl; retries = refl; records = refl }

run_steps-IsStore_example : IsStore (run_steps rune_of day_of upstream steps world).0.runs
run_steps-IsStore_example = run_steps-IsStore rune_of day_of upstream steps world world-IsStore

run_steps-retries_example :
    (counted "2026-01-01" "a" (run_steps rune_of day_of upstream steps world).0.runs
      ≡ retries rune_of day_of upstream "2026-01-01" "a" steps world
        + counted "2026-01-01" "a" world.runs)
    × (retries rune_of day_of upstream "2026-01-01" "a" steps world
          + counted "2026-01-01" "a" world.runs
        ≤ 3)
run_steps-retries_example =
    run_steps-retries rune_of day_of upstream "2026-01-01" "a" steps world
      (tt, (readings-IsOnDay, (readings-IsOnDay, (tt, tt)))) world-IsStore

checkin_one_account_from-IsPending_example :
    IsPending "2026-01-01" "a"
      (checkin_one_account_from rune_of day_of upstream
        (file_of "b")
        "auto"
        readings
        bundle
        world).0.runs
checkin_one_account_from-IsPending_example =
    checkin_one_account_from-IsPending rune_of day_of upstream "2026-01-01" "a" (file_of "b") "auto"
      readings bundle world readings-IsOnDay world-IsStore refl world-IsPending

run_steps-claims_example :
    ((claims_of "a" (run_steps rune_of day_of upstream steps world).1 ≡ [])
      × IsPending "2026-01-01" "a" (run_steps rune_of day_of upstream steps world).0.runs)
    ⊎ ((ys zs : List Step) × (steps ≡ ys ++ zs)
        × (claims_of "a" (run_steps rune_of day_of upstream ys world).1 ≡ [])
        × IsConfirmed "2026-01-01" "a" (run_steps rune_of day_of upstream ys world).0.runs)
run_steps-claims_example =
    run_steps-claims rune_of day_of upstream "2026-01-01" "a" steps world
      (tt, (readings-IsOnDay, (readings-IsOnDay, (tt, tt)))) world-IsStore world-IsPending
