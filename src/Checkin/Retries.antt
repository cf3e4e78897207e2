-- ===== src/Checkin/Retries.antt =====
-- How many retries of an account workbuddy/checkin.go makes on one day: the count that
-- `checkinRunStore.record` keeps is the number of retries that went through.
use workbuddy_cpa_plugin.Base.{
  ℕ, ◌+◌, ◌≤◌, ◌≡◌, sym, ap, ◌∙◌, inl, inr, Bool, true, ◌&&◌, not, ◌||◌, List, [], ◌∷◌, none, some,
  arith, if◌then◌else◌, Bool-cases, Option-cases, ◌==◌, String, string_eq, nat_eq, All, beq_self,
}
use workbuddy_cpa_plugin.Base.Maps.{lookup, lookup-insert, Distinct, AllEntries-lookup}
use workbuddy_cpa_plugin.Accounts.{is_global_domain}
use workbuddy_cpa_plugin.Checkin.Attempt.{
  Upstream, Event, CheckinAttemptResult, running, run, confirmed_checkin_attempt,
}
use workbuddy_cpa_plugin.Checkin.Runs.{
  RunStore, RunRecord, make_room_locked, blank_record, reserve, release, needs_confirmation, due,
  retry_mode,
}
use workbuddy_cpa_plugin.Checkin.Account.{
  World, AuthFileEntry, Readings, Bundle, finish, attempt, with_account, checkin_one_account_from,
}
use workbuddy_cpa_plugin.Checkin.Bounds.{IsStore, IsRecord}
use workbuddy_cpa_plugin.Checkin.Kept.{reserve-IsStore}
use workbuddy_cpa_plugin.Checkin.Checkpoint.{IsOnDay}
use workbuddy_cpa_plugin.Checkin.History.{
  Step, check, sweep, stop, step, run_steps, IsToday, step-IsStore, run_steps-IsStore,
}
use workbuddy_cpa_plugin.Checkin.Counted.{
  counted, counted-refresh, counted-cancel, counted-reserve, counted-record_run_other,
  counted-record_run,
}

-- Whether a call of the handler is a retry that goes through: the account can be reserved, and the retry
-- is due.
abbrev pub goes_through : (ℕ → String) → AuthFileEntry → String → Readings → RunStore → Bool
goes_through day f source t s =
    let (s', started) = reserve day f.auth_index t.at_reserve s in
    source == "retry" && started && (retry_mode day f.auth_index t.at_retry s').1

reserve-there :
    (day : ℕ → String) (j : String) (now : ℕ) (s : RunStore)
    → (reserve day j now s).1 ≡ true
    → (p : RunRecord) × (lookup j (reserve day j now s).0.latest ≡ some p)
unfolding reserve
reserve-there day j now s started = elim (Option-cases (lookup j s.latest)) [
  | inr (p, there) ↦ (p, ground (arith, there))
  | inl absent ↦
      let blank = blank_record day j "" now running "" in
      (
        blank,
        ground (
          arith,
          absent,
          started,
          beq_self j,
          lookup-insert j j blank (make_room_locked day s now).0.latest,
        ),
      )
]

retry_mode-today :
    (day : ℕ → String) (today j : String) (now : ℕ) (s : RunStore) (p : RunRecord)
    → day now ≡ today
    → lookup j s.latest ≡ some p
    → (retry_mode day j now s).1 ≡ true
    → (p.day == today) ≡ true
unfolding retry_mode
retry_mode-today day today j now s p h there is_due =
    ground (arith, there, is_due, ap (λ d. p.day == d) h)

module _ {ℓ} {S : Type ℓ} (unicode : ℕ → ℕ) (day : ℕ → String) (up : Upstream S)
    (today k : String) where
  -- A result that is recorded, for the account or for another one, adds to the count.
  abbrev Adds : ℕ → World S → RunStore → Type 0
  Adds n w s = counted today k s ≡ n + counted today k w.runs

  finish-Adds :
      (f : AuthFileEntry) (source : String) (result : CheckinAttemptResult) (now : ℕ) (w : World S)
      (events : List Event) (p : RunRecord)
      → day now ≡ today
      → Distinct w.runs.latest
      → lookup f.auth_index w.runs.latest ≡ some p
      → Adds
          (if f.auth_index == k && (source == "retry" && p.day == today) then 1 else 0)
          w
          (finish unicode day up f source result now w events).0.runs
  unfolding finish release
  finish-Adds f source result now w events p h d there = elim (Bool-cases (f.auth_index == k)) [
    | inl own ↦
        let same : f.auth_index ≡ k = (string_eq.beq_iff f.auth_index k).0 own in
        let here : lookup k w.runs.latest ≡ some p =
          ap (λ i. lookup i w.runs.latest) (sym same) ∙ there in
        rw (own, same) (counted-record_run day today k f.id source result now w.runs p h here)
    | inr other ↦
        let kept =
          counted-record_run_other day today k f.auth_index f.id source result now w.runs h d
            other in
        rw other (omega (arith, kept))
  ]

  with_account-Adds :
      (f : AuthFileEntry) (source : String) (confirm_only : Bool) (t : Readings) (bundle : Bundle)
      (w : World S) (p : RunRecord)
      → day t.at_record ≡ today
      → Distinct w.runs.latest
      → lookup f.auth_index w.runs.latest ≡ some p
      → Adds
          (if f.auth_index == k && (source == "retry" && p.day == today) then 1 else 0)
          w
          (with_account unicode day up f source confirm_only t bundle w).0.runs
  unfolding with_account attempt
  with_account-Adds f source confirm_only t none w p h d there =
      finish-Adds f source _ t.at_record w [] p h d there
  with_account-Adds f source confirm_only t (some (sa, off)) w p h d there =
      elim (Bool-cases (is_global_domain unicode sa.domain)) [
        | inl abroad ↦ rw abroad (finish-Adds f source _ t.at_record w [] p h d there)
        | inr here ↦ elim (Bool-cases (not (source == "manual") && (f.disabled || off))) [
          | inl skipped ↦ rw (here, skipped) (finish-Adds f source _ t.at_record w [] p h d there)
          | inr wanted ↦
              let (result, s, events) =
                run up (confirmed_checkin_attempt confirm_only) w.upstream in
              rw (here, wanted)
                (finish-Adds f source result t.at_record
                  (record w { cache = w.cache; upstream = s }) events p h d there)
        ]
      ]

  -- What a call counts for the account.
  abbrev pub spent : AuthFileEntry → String → Readings → World S → ℕ
  spent f source t w = if f.auth_index == k && goes_through day f source t w.runs then 1 else 0

  checkin_one_account_from-Adds :
      (f : AuthFileEntry) (source : String) (t : Readings) (bundle : Bundle) (w : World S)
      → IsOnDay day today t
      → IsStore w.runs
      → Adds
          (spent f source t w)
          w
          (checkin_one_account_from unicode day up f source t bundle w).0.runs
  unfolding checkin_one_account_from release
  checkin_one_account_from-Adds f source t bundle w on ok =
      let s = (reserve day f.auth_index t.at_reserve w.runs).0 in
      let w' : World S = record w { runs = s } in
      let d = (reserve-IsStore day f.auth_index t.at_reserve w.runs ok).distinct in
      let same =
        counted-reserve day today k f.auth_index t.at_reserve w.runs on.reserves ok.distinct in
      elim (Bool-cases (reserve day f.auth_index t.at_reserve w.runs).1) [
        | inr full ↦ rw full (ground (arith, same))
        | inl started ↦
            let (p, there) = reserve-there day f.auth_index t.at_reserve w.runs started in
            elim (Bool-cases (source == "retry")) [
              | inr first ↦
                  let a =
                    with_account-Adds f source (needs_confirmation day f.auth_index t.at_needs s) t
                      bundle w' p on.records d there in
                  rw (started, first) (ground (arith, rw first at a, same))
              | inl again ↦ elim (Bool-cases (retry_mode day f.auth_index t.at_retry s).1) [
                | inl is_due ↦
                    let a =
                      with_account-Adds f source (retry_mode day f.auth_index t.at_retry s).0 t
                        bundle w' p on.records d there in
                    let now_today =
                      retry_mode-today day today f.auth_index t.at_retry s p on.retries there
                        is_due in
                    rw (started, again, is_due) (ground (arith, rw (again, now_today) at a, same))
                | inr stopped ↦ rw (started, again, stopped) (ground (arith, same))
              ]
            ]
      ]

  abbrev pub spent_by : Step → World S → ℕ
  spent_by (check f source t bundle) w = spent f source t w
  spent_by (sweep now auto) w = 0
  spent_by (stop index) w = 0

  -- The retries of the account that go through in a series of steps.
  pub retries : List Step → World S → ℕ
  retries [] w = 0
  retries (x ∷ xs) w = spent_by x w + retries xs (step unicode day up x w).0

  step-Adds :
      (x : Step) (w : World S)
      → IsToday day today x
      → IsStore w.runs
      → Adds (spent_by x w) w (step unicode day up x w).0.runs
  unfolding due
  step-Adds (check f source t bundle) w on ok =
      checkin_one_account_from-Adds f source t bundle w on ok
  step-Adds (sweep now auto) w on ok =
      omega (arith, counted-refresh day today k now auto w.runs.latest)
  step-Adds (stop index) w on ok = omega (arith, counted-cancel day today k index w.runs)

  run_steps-Adds :
      (xs : List Step) (w : World S)
      → All (IsToday day today) xs
      → IsStore w.runs
      → Adds (retries xs w) w (run_steps unicode day up xs w).0.runs
  unfolding run_steps retries
  run_steps-Adds [] w on ok = omega arith
  run_steps-Adds (x ∷ xs) w on ok =
      let one = step-Adds x w on.0 ok in
      let rest =
        run_steps-Adds xs (step unicode day up x w).0 on.1 (step-IsStore unicode day up x w ok) in
      omega (arith, one, rest)

  counted-small : (s : RunStore) → IsStore s → counted today k s ≤ 3
  counted-small s ok = elim (Option-cases (lookup k s.latest)) [
    | inl absent ↦ ground (arith, absent)
    | inr (r, there) ↦
        let few = AllEntries-lookup (λ _ r. IsRecord r) k r s.latest ok.records there in
        ground (arith, there, few.counted)
  ]

  -- Whatever calls of the handler for any accounts, sweeps and cancelled retries run on one day from a
  -- store within its bounds: the retries of an account that go through - those whose account could be
  -- reserved and whose retry was due - are counted exactly, and with those that were counted for the day
  -- at the start they are at most three.
  pub run_steps-retries :
      (xs : List Step) (w : World S)
      → All (IsToday day today) xs
      → IsStore w.runs
      → (counted today k (run_steps unicode day up xs w).0.runs
          ≡ retries xs w + counted today k w.runs)
        × (retries xs w + counted today k w.runs ≤ 3)
  run_steps-retries xs w on ok =
      let exact = run_steps-Adds xs w on ok in
      let few =
        counted-small (run_steps unicode day up xs w).0.runs
          (run_steps-IsStore unicode day up xs w ok) in
      (exact, omega (arith, exact, few))
