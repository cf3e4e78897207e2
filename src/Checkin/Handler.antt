-- ===== src/Checkin/Handler.antt =====
-- The sweep of `due`, and the handler of workbuddy/checkin.go as a whole, on the store's bounds.
use workbuddy_cpa_plugin.Base.{
  ℕ, ◌≤◌, ◌≡◌, refl, inl, inr, Bool, true, false, List, [], ◌∷◌, none, some, arith, length,
  Bool-cases, Option-cases, if_elim, ◌==◌, is_some, String, not, string_eq, nat_eq, ◌&&◌, ◌||◌,
}
use workbuddy_cpa_plugin.Base.Maps.{lookup, Distinct, AllEntries, AllEntries-lookup}
use workbuddy_cpa_plugin.Accounts.{is_global_domain}
use workbuddy_cpa_plugin.Checkin.Attempt.{
  CheckinAttemptResult, Upstream, Event, run, confirmed_checkin_attempt,
}
use workbuddy_cpa_plugin.Checkin.Runs.{
  RunStore, RunRecord, reserve, retry_mode, retries_after, due, refresh, stale,
}
use workbuddy_cpa_plugin.Checkin.Account.{
  World, AuthFileEntry, Readings, Bundle, finish, attempt, with_account, checkin_one_account_from,
}
use workbuddy_cpa_plugin.Checkin.Bounds.{IsRecord, IsStore}
use workbuddy_cpa_plugin.Checkin.Kept.{record_run-IsStore, release-IsStore, reserve-IsStore}

module _ (day : ℕ → String) where
  lookup-refresh :
      (now : ℕ) (auto : Bool) (k : String) (m : List (String × RunRecord))
      → is_some (lookup k (refresh day now auto m)) ≡ is_some (lookup k m)
  unfolding lookup refresh
  lookup-refresh now auto k [] = refl
  lookup-refresh now auto k ((j, r) ∷ m) = ground (arith, lookup-refresh now auto k m)

  Distinct-refresh :
      (now : ℕ) (auto : Bool) (m : List (String × RunRecord))
      → Distinct m
      → Distinct (refresh day now auto m)
  unfolding refresh
  Distinct-refresh now auto [] d = d
  Distinct-refresh now auto ((j, r) ∷ m) d = (
    elim (Option-cases (lookup j (refresh day now auto m))) [
      | inl absent ↦ absent
      | inr (v, there) ↦ ground (arith, lookup-refresh now auto j m, d.0, there)
    ],
    Distinct-refresh now auto m d.1,
  )

  length-refresh :
      (now : ℕ) (auto : Bool) (m : List (String × RunRecord))
      → length (refresh day now auto m) ≡ length m
  unfolding refresh
  length-refresh now auto [] = refl
  length-refresh now auto ((j, r) ∷ m) = ground (arith, length-refresh now auto m)

  AllEntries-refresh :
      (now : ℕ) (auto : Bool) (m : List (String × RunRecord))
      → AllEntries (λ _ r. IsRecord r) m
      → AllEntries (λ _ r. IsRecord r) (refresh day now auto m)
  unfolding refresh
  AllEntries-refresh now auto [] h = h
  AllEntries-refresh now auto ((j, r) ∷ m) h = (
    if_elim IsRecord (stale day now auto r) (record r { next_retry_at = 0; retry_allowed = false })
        r (λ _. record { counted = h.0.counted; allowed = inl refl }) (λ _. h.0),
    AllEntries-refresh now auto m h.1,
  )

  pub due-IsStore :
      (now : ℕ) (auto : Bool) (s : RunStore) → IsStore s → IsStore (due day now auto s).0
  unfolding due
  due-IsStore now auto s w = record {
    distinct = Distinct-refresh now auto s.latest w.distinct;
    small = ground (arith, length-refresh now auto s.latest, w.small);
    short = w.short;
    records = AllEntries-refresh now auto s.latest w.records;
  }

  -- A task that is not a retry counts no more retries than before.
  retries_after-kept :
      (source : String) (now : ℕ) (index : String) (s : RunStore)
      → IsStore s
      → (source == "retry") ≡ false
      → retries_after day source now (lookup index s.latest) ≤ 3
  retries_after-kept source now index s w other = elim (Option-cases (lookup index s.latest)) [
    | inl absent ↦ ground (arith, absent)
    | inr (r, there) ↦
        let ok = AllEntries-lookup (λ _ r. IsRecord r) index r s.latest w.records there in
        ground (arith, there, ok.counted, other)
  ]

  -- A retry that is due is within the budget.
  retries_after-due :
      (source : String) (now seen : ℕ) (index : String) (s : RunStore)
      → IsStore s
      → (retry_mode day index seen s).1 ≡ true
      → retries_after day source now (lookup index s.latest) ≤ 3
  unfolding retry_mode
  retries_after-due source now seen index s w is_due = elim (Option-cases (lookup index s.latest)) [
    | inl absent ↦ ground (arith, absent)
    | inr (r, there) ↦
        let ok = AllEntries-lookup (λ _ r. IsRecord r) index r s.latest w.records there in
        ground (arith, there, ok.counted, ok.allowed, is_due)
  ]

module _ {ℓ} {S : Type ℓ} (unicode : ℕ → ℕ) (day : ℕ → String) (up : Upstream S) where
  finish-IsStore :
      (f : AuthFileEntry) (source : String) (result : CheckinAttemptResult) (now : ℕ) (w : World S)
      (events : List Event)
      → IsStore w.runs
      → retries_after day source now (lookup f.auth_index w.runs.latest) ≤ 3
      → IsStore (finish unicode day up f source result now w events).0.runs
  unfolding finish
  finish-IsStore f source result now w events ok few =
      release-IsStore day f.auth_index _
        (record_run-IsStore day f.auth_index f.id source result now w.runs ok few)

  attempt-IsStore :
      (f : AuthFileEntry) (source : String) (confirm_only : Bool) (t : Readings) (w : World S)
      → IsStore w.runs
      → retries_after day source t.at_record (lookup f.auth_index w.runs.latest) ≤ 3
      → IsStore (attempt unicode day up f source confirm_only t w).0.runs
  unfolding attempt finish
  attempt-IsStore f source confirm_only t w ok few =
      let (result, s, events) = run up (confirmed_checkin_attempt confirm_only) w.upstream in
      finish-IsStore f source result t.at_record (record w { cache = w.cache; upstream = s }) events
        ok few

  with_account-IsStore :
      (f : AuthFileEntry) (source : String) (confirm_only : Bool) (t : Readings) (bundle : Bundle)
      (w : World S)
      → IsStore w.runs
      → retries_after day source t.at_record (lookup f.auth_index w.runs.latest) ≤ 3
      → IsStore (with_account unicode day up f source confirm_only t bundle w).0.runs
  unfolding with_account
  with_account-IsStore f source confirm_only t none w ok few =
      finish-IsStore f source _ t.at_record w [] ok few
  with_account-IsStore f source confirm_only t (some (sa, off)) w ok few =
      elim (Bool-cases (is_global_domain unicode sa.domain)) [
        | inl there ↦ rw there (finish-IsStore f source _ t.at_record w [] ok few)
        | inr here ↦ elim (Bool-cases (not (source == "manual") && (f.disabled || off))) [
          | inl skipped ↦ rw (here, skipped) (finish-IsStore f source _ t.at_record w [] ok few)
          | inr wanted ↦ rw (here, wanted) (attempt-IsStore f source confirm_only t w ok few)
        ]
      ]

  pub checkin_one_account_from-IsStore :
      (f : AuthFileEntry) (source : String) (t : Readings) (bundle : Bundle) (w : World S)
      → IsStore w.runs
      → IsStore (checkin_one_account_from unicode day up f source t bundle w).0.runs
  unfolding checkin_one_account_from
  checkin_one_account_from-IsStore f source t bundle w ok =
      let s = (reserve day f.auth_index t.at_reserve w.runs).0 in
      let kept = reserve-IsStore day f.auth_index t.at_reserve w.runs ok in
      let w' : World S = record w { runs = s } in
      elim (Bool-cases (reserve day f.auth_index t.at_reserve w.runs).1) [
        | inr full ↦ rw full kept
        | inl started ↦ elim (Bool-cases (source == "retry")) [
          | inr first ↦
              rw (started, first)
                (with_account-IsStore f source _ t bundle w' kept
                  (retries_after-kept day source t.at_record f.auth_index s kept first))
          | inl again ↦ elim (Bool-cases (retry_mode day f.auth_index t.at_retry s).1) [
            | inl is_due ↦
                rw (started, again, is_due)
                  (with_account-IsStore f source _ t bundle w' kept (
                    retries_after-due day source t.at_record t.at_retry f.auth_index s kept is_due))
            | inr cancelled' ↦
                rw (started, again, cancelled') (release-IsStore day f.auth_index s kept)
          ]
        ]
      ]
