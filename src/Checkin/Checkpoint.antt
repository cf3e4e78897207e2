-- ===== src/Checkin/Checkpoint.antt =====
-- The checkpoint of workbuddy/checkin_state.go: a claim whose success is not known is not sent again
-- on its day.
use workbuddy_cpa_plugin.Base.{
  ℕ, ◌≡◌, refl, ◌⊎◌, inl, inr, Bool, true, false, List, [], none, some, arith, Bool-cases, ◌==◌,
  beq_self, String, not, string_eq, nat_eq, ◌&&◌, ◌||◌,
}
use workbuddy_cpa_plugin.Base.Maps.{lookup, Distinct, lookup-insert}
use workbuddy_cpa_plugin.Accounts.{is_global_domain}
use workbuddy_cpa_plugin.Checkin.Attempt.{
  CheckinAttemptResult, running, Upstream, Event, run, confirmed_checkin_attempt,
}
use workbuddy_cpa_plugin.Checkin.Runs.{
  RunStore, RunRecord, reserve, release, record_run, needs_confirmation, retry_mode,
  make_room_locked, blank_record, new_record,
}
use workbuddy_cpa_plugin.Checkin.Account.{
  World, Reply, AuthFileEntry, Readings, Bundle, finish, attempt, with_account,
  checkin_one_account_from,
}
use workbuddy_cpa_plugin.Checkin.Bounds.{IsStore, make_room-lookup}
use workbuddy_cpa_plugin.Checkin.Kept.{reserve-IsStore}
use workbuddy_cpa_plugin.Checkin.Claims.{IsCallOrder, attempt-IsCallOrder, claims}

-- The last result of an account today is a claim whose success is not known.
abbrev pub IsPending : String → String → RunStore → Type 0
IsPending today k s =
    (r : RunRecord) × (lookup k s.latest ≡ some r)
    × (r.day ≡ today)
    × (r.confirm_only ≡ true)
    × (r.confirmed ≡ false)

-- The last result of an account today is a confirmed one.
abbrev pub IsConfirmed : String → String → RunStore → Type 0
IsConfirmed today k s =
    (r : RunRecord) × (lookup k s.latest ≡ some r) × (r.day ≡ today) × (r.confirmed ≡ true)

confirm_only-claims : (es : List Event) → IsCallOrder true es → claims es ≡ []
confirm_only-claims es (inl (r, e)) = rw e refl
confirm_only-claims es (inr (ci, c, rest, e, more, h, fresh, active)) = ground (arith, h)

module _ (day : ℕ → String) (today k : String) where
  reserve-IsPending :
      (j : String) (now : ℕ) (s : RunStore)
      → day now ≡ today
      → Distinct s.latest
      → IsPending today k s
      → IsPending today k (reserve day j now s).0
  unfolding reserve
  reserve-IsPending j now s h d (r, there, same, only, open') =
      let stays = make_room-lookup day s now k r d there (
        ground
          (arith, h, same, only, open', beq_self (day now), string_eq.beq_iff r.day (day now))) in
      let inserted =
        lookup-insert j k (blank_record day j "" now running "")
          (make_room_locked day s now).0.latest in
      (r, ground (arith, there, stays, inserted, string_eq.beq_iff j k), same, only, open')

  record_run-IsPending_other :
      (j id source : String) (result : CheckinAttemptResult) (now : ℕ) (s : RunStore)
      → day now ≡ today
      → Distinct s.latest
      → (j == k) ≡ false
      → IsPending today k s
      → IsPending today k (record_run day j id source result now s).0
  unfolding record_run
  record_run-IsPending_other j id source result now s h d other (r, there, same, only, open') =
      let new = new_record day j id source result now (lookup j s.latest) in
      let stays = make_room-lookup day s now k r d there (
        ground
          (arith, h, same, only, open', beq_self (day now), string_eq.beq_iff r.day (day now))) in
      let inserted = lookup-insert j k new (make_room_locked day s now).0.latest in
      let replaced = lookup-insert j k new s.latest in
      (r, ground (arith, there, stays, inserted, replaced, other), same, only, open')

  record_run-IsPending :
      (id source : String) (result : CheckinAttemptResult) (now : ℕ) (s : RunStore)
      → day now ≡ today
      → IsPending today k s
      → let s' = (record_run day k id source result now s).0 in
        IsPending today k s' ⊎ IsConfirmed today k s'
  unfolding record_run new_record
  record_run-IsPending id source result now s h (r, there, same, only, open') =
      let new = new_record day k id source result now (lookup k s.latest) in
      let replaced = lookup-insert k k new s.latest in
      let found : lookup k (record_run day k id source result now s).0.latest ≡ some new =
        ground (arith, there, replaced, beq_self k) in
      elim (Bool-cases result.confirmed) [
        | inl sure ↦ inr (new, found, h, sure)
        | inr unsure ↦ inl (
          new,
          found,
          h,
          ground (arith, there, same, only, h, unsure, string_eq.beq_iff r.day (day now)),
          unsure,
        )
      ]

  release-IsPending :
      (j : String) (s : RunStore) → IsPending today k s → IsPending today k (release j s)
  unfolding release
  release-IsPending j s pending = pending

  needs_confirmation-IsPending :
      (now : ℕ) (s : RunStore)
      → day now ≡ today
      → IsPending today k s
      → needs_confirmation day k now s ≡ true
  unfolding needs_confirmation
  needs_confirmation-IsPending now s h (r, there, same, only, open') =
      ground (arith, there, same, only, open', h, string_eq.beq_iff r.day (day now))

  retry_mode-IsPending :
      (now : ℕ) (s : RunStore) → IsPending today k s → (retry_mode day k now s).0 ≡ true
  unfolding retry_mode
  retry_mode-IsPending now s (r, there, same, only, open') = ground (arith, there, only)

-- After a call: no claim was sent, and the day's result is confirmed or still pending.
abbrev pub IsHeld {ℓ} : {S : Type ℓ} → String → String → World S × Reply × List Event → Type 0
IsHeld today k out =
    (claims out.2 ≡ []) × (IsPending today k out.0.runs ⊎ IsConfirmed today k out.0.runs)

-- Every clock reading of a call is on one day.
pub record IsOnDay (day : ℕ → String) (today : String) (t : Readings) : Type 0 where
  pub reserves : day t.at_reserve ≡ today
  pub needs : day t.at_needs ≡ today
  pub retries : day t.at_retry ≡ today
  pub records : day t.at_record ≡ today

module _ {ℓ} {S : Type ℓ} (unicode : ℕ → ℕ) (day : ℕ → String) (up : Upstream S)
    (today : String) where
  finish-IsHeld :
      (f : AuthFileEntry) (source : String) (result : CheckinAttemptResult) (now : ℕ) (w : World S)
      (events : List Event)
      → day now ≡ today
      → IsPending today f.auth_index w.runs
      → claims events ≡ []
      → IsHeld today f.auth_index (finish unicode day up f source result now w events)
  unfolding finish release
  finish-IsHeld f source result now w events h pending none' =
      (none', record_run-IsPending day today f.auth_index f.id source result now w.runs h pending)

  attempt-IsHeld :
      (f : AuthFileEntry) (source : String) (t : Readings) (w : World S)
      → day t.at_record ≡ today
      → IsPending today f.auth_index w.runs
      → IsHeld today f.auth_index (attempt unicode day up f source true t w)
  unfolding attempt finish release
  attempt-IsHeld f source t w h pending =
      let (result, s, events) = run up (confirmed_checkin_attempt true) w.upstream in
      let quiet = confirm_only-claims events (attempt-IsCallOrder up true w.upstream) in
      finish-IsHeld f source result t.at_record (record w { cache = w.cache; upstream = s }) events
        h pending quiet

  with_account-IsHeld :
      (f : AuthFileEntry) (source : String) (confirm_only : Bool) (t : Readings) (bundle : Bundle)
      (w : World S)
      → confirm_only ≡ true
      → day t.at_record ≡ today
      → IsPending today f.auth_index w.runs
      → IsHeld today f.auth_index (with_account unicode day up f source confirm_only t bundle w)
  unfolding with_account
  with_account-IsHeld f source confirm_only t none w only h pending =
      finish-IsHeld f source _ t.at_record w [] h pending refl
  with_account-IsHeld f source confirm_only t (some (sa, off)) w only h pending =
      elim (Bool-cases (is_global_domain unicode sa.domain)) [
        | inl there ↦ rw there (finish-IsHeld f source _ t.at_record w [] h pending refl)
        | inr here ↦ elim (Bool-cases (not (source == "manual") && (f.disabled || off))) [
          | inl skipped ↦
              rw (here, skipped) (finish-IsHeld f source _ t.at_record w [] h pending refl)
          | inr wanted ↦ rw (here, wanted, only) (attempt-IsHeld f source t w h pending)
        ]
      ]

  -- A claim whose success is not known is not sent again on its day: while the account's last result
  -- today is a claim to be confirmed, a call of the handler on the same day sends no claim, and
  -- leaves a result that is still to be confirmed, or a confirmed one.
  pub checkin_one_account_from-IsHeld :
      (f : AuthFileEntry) (source : String) (t : Readings) (bundle : Bundle) (w : World S)
      → IsOnDay day today t
      → Distinct w.runs.latest
      → IsPending today f.auth_index w.runs
      → IsHeld today f.auth_index (checkin_one_account_from unicode day up f source t bundle w)
  unfolding checkin_one_account_from
  checkin_one_account_from-IsHeld f source t bundle w on d pending =
      let s = (reserve day f.auth_index t.at_reserve w.runs).0 in
      let w' : World S = record w { runs = s } in
      let kept =
        reserve-IsPending day today f.auth_index f.auth_index t.at_reserve w.runs on.reserves d
          pending in
      elim (Bool-cases (reserve day f.auth_index t.at_reserve w.runs).1) [
        | inr full ↦ rw full (refl, inl kept)
        | inl started ↦ elim (Bool-cases (source == "retry")) [
          | inr first ↦
              rw (started, first)
                (with_account-IsHeld f source _ t bundle w'
                  (needs_confirmation-IsPending day today f.auth_index t.at_needs s on.needs kept)
                  on.records kept)
          | inl again ↦ elim (Bool-cases (retry_mode day f.auth_index t.at_retry s).1) [
            | inl is_due ↦
                rw (started, again, is_due)
                  (with_account-IsHeld f source _ t bundle w'
                    (retry_mode-IsPending day today f.auth_index t.at_retry s kept) on.records kept)
            | inr stopped ↦
                rw (started, again, stopped)
                  (refl, inl (release-IsPending day today f.auth_index f.auth_index s kept))
          ]
        ]
      ]

  -- A call for another account keeps the pending result, also when the store is full and must make
  -- room.
  with_account-IsPending_other :
      (k : String) (f : AuthFileEntry) (source : String) (confirm_only : Bool) (t : Readings)
      (bundle : Bundle) (w : World S)
      → day t.at_record ≡ today
      → Distinct w.runs.latest
      → (f.auth_index == k) ≡ false
      → IsPending today k w.runs
      → IsPending today k (with_account unicode day up f source confirm_only t bundle w).0.runs
  unfolding with_account attempt finish release
  with_account-IsPending_other k f source confirm_only t none w h d other pending =
      record_run-IsPending_other day today k f.auth_index f.id source _ t.at_record w.runs h d other
        pending
  with_account-IsPending_other k f source confirm_only t (some (sa, off)) w h d other pending =
      elim (Bool-cases (is_global_domain unicode sa.domain)) [
        | inl there ↦ rw there (
            record_run-IsPending_other day today k f.auth_index f.id source _ t.at_record w.runs h d
              other pending)
        | inr here ↦ elim (Bool-cases (not (source == "manual") && (f.disabled || off))) [
          | inl skipped ↦
              rw (here, skipped)
                (record_run-IsPending_other day today k f.auth_index f.id source _ t.at_record
                  w.runs h d other pending)
          | inr wanted ↦
              rw (here, wanted)
                (record_run-IsPending_other day today k f.auth_index f.id source _ t.at_record
                  w.runs h d other pending)
        ]
      ]

  -- A call for another account on the same day keeps the result that is to be confirmed, also when
  -- the store is full and the call makes room in it.
  pub checkin_one_account_from-IsPending :
      (k : String) (f : AuthFileEntry) (source : String) (t : Readings) (bundle : Bundle)
      (w : World S)
      → IsOnDay day today t
      → IsStore w.runs
      → (f.auth_index == k) ≡ false
      → IsPending today k w.runs
      → IsPending today k (checkin_one_account_from unicode day up f source t bundle w).0.runs
  unfolding checkin_one_account_from
  checkin_one_account_from-IsPending k f source t bundle w on ok other pending =
      let s = (reserve day f.auth_index t.at_reserve w.runs).0 in
      let w' : World S = record w { runs = s } in
      let apart = (reserve-IsStore day f.auth_index t.at_reserve w.runs ok).distinct in
      let kept =
        reserve-IsPending day today k f.auth_index t.at_reserve w.runs on.reserves ok.distinct
          pending in
      elim (Bool-cases (reserve day f.auth_index t.at_reserve w.runs).1) [
        | inr full ↦ rw full kept
        | inl started ↦ elim (Bool-cases (source == "retry")) [
          | inr first ↦
              rw (started, first)
                (with_account-IsPending_other k f source _ t bundle w' on.records apart other kept)
          | inl again ↦ elim (Bool-cases (retry_mode day f.auth_index t.at_retry s).1) [
            | inl is_due ↦
                rw (started, again, is_due)
                  (with_account-IsPending_other k f source _ t bundle w' on.records apart other
                    kept)
            | inr stopped ↦
                rw (started, again, stopped) (release-IsPending day today k f.auth_index s kept)
          ]
        ]
      ]
