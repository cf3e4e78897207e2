-- ===== src/Checkin/History.antt =====
-- Sequences of calls of workbuddy/checkin.go's handler for any accounts, of sweeps for due retries,
-- and of cancelled retries, run one after another on one store.
use workbuddy_cpa_plugin.Base.{
  ℕ, ◌≡◌, refl, sym, ap, ◌⊎◌, inl, inr, Bool, false, List, [], ◌∷◌, ◌++◌, some, arith,
  if◌then◌else◌, Bool-cases, subst, append_assoc, Option-cases, ◌==◌, String, string_eq, nat_eq,
  All,
}
use workbuddy_cpa_plugin.Base.Maps.{lookup, lookup-insert}
use workbuddy_cpa_plugin.Checkin.Attempt.{Upstream, Event, ClaimReply}
use workbuddy_cpa_plugin.Checkin.Runs.{RunStore, RunRecord, due, refresh, stale, cancel}
use workbuddy_cpa_plugin.Checkin.Account.{
  World, AuthFileEntry, Readings, Bundle, checkin_one_account_from,
}
use workbuddy_cpa_plugin.Checkin.Bounds.{IsStore}
use workbuddy_cpa_plugin.Checkin.Kept.{cancel-IsStore}
use workbuddy_cpa_plugin.Checkin.Claims.{claims}
use workbuddy_cpa_plugin.Checkin.Handler.{due-IsStore, checkin_one_account_from-IsStore}
use workbuddy_cpa_plugin.Checkin.Checkpoint.{
  IsPending, IsConfirmed, IsHeld, IsOnDay, checkin_one_account_from-IsHeld,
  checkin_one_account_from-IsPending,
}

-- A call of the handler, a sweep of `due`, or a cancelled retry.
pub data Step : Type 0 where
  check : AuthFileEntry → String → Readings → Bundle → Step
  sweep : ℕ → Bool → Step
  stop : String → Step

-- The calls sent to the upstream, with the account they were sent for.
abbrev pub claims_of : String → List (String × List Event) → List ClaimReply
claims_of k [] = []
claims_of k ((j, es) ∷ log) = (if j == k then claims es else []) ++ claims_of k log

module _ {ℓ} {S : Type ℓ} (unicode : ℕ → ℕ) (day : ℕ → String) (up : Upstream S) where
  abbrev pub step : Step → World S → World S × List (String × List Event)
  step (check f source t bundle) w =
      let (w', _, es) = checkin_one_account_from unicode day up f source t bundle w in
      (w', (f.auth_index, es) ∷ [])
  step (sweep now auto) w = (record w { runs = (due day now auto w.runs).0 }, [])
  step (stop index) w = (record w { runs = cancel index w.runs }, [])

  unfoldable pub run_steps : List Step → World S → World S × List (String × List Event)
  run_steps [] w = (w, [])
  run_steps (x ∷ xs) w =
      let (w', log) = step x w in let (w'', logs) = run_steps xs w' in (w'', log ++ logs)

  pub step-IsStore : (x : Step) (w : World S) → IsStore w.runs → IsStore (step x w).0.runs
  step-IsStore (check f source t bundle) w ok =
      checkin_one_account_from-IsStore unicode day up f source t bundle w ok
  step-IsStore (sweep now auto) w ok = due-IsStore day now auto w.runs ok
  step-IsStore (stop index) w ok = cancel-IsStore day index w.runs ok

  -- Every sequence of calls, sweeps and cancelled retries keeps a store of results within its bounds,
  -- if it starts within them: at most 512 accounts and 100 entries of history, no account twice, a stored
  -- count of retries of at most three for each account, and no retry allowed where it is three.
  pub run_steps-IsStore :
      (xs : List Step) (w : World S) → IsStore w.runs → IsStore (run_steps xs w).0.runs
  unfolding run_steps
  run_steps-IsStore [] w ok = ok
  run_steps-IsStore (x ∷ xs) w ok = run_steps-IsStore xs (step x w).0 (step-IsStore x w ok)

module _ (day : ℕ → String) (today k : String) where
  cancel-IsPending :
      (j : String) (s : RunStore) → IsPending today k s → IsPending today k (cancel j s)
  unfolding cancel
  cancel-IsPending j s (r, there, same, only, open') = elim (Option-cases (lookup j s.latest)) [
    | inl absent ↦ (r, ground (arith, absent, there), same, only, open')
    | inr (v, found) ↦ elim (Bool-cases (j == k)) [
      | inl own ↦ (
        record r { retry_allowed = false; next_retry_at = 0 },
        ground (
          arith,
          there,
          found,
          own,
          string_eq.beq_iff j k,
          lookup-insert j k (record v { retry_allowed = false; next_retry_at = 0 }) s.latest,
        ),
        same,
        only,
        open',
      )
      | inr other ↦ (
        r,
        ground (
          arith,
          there,
          found,
          other,
          lookup-insert j k (record v { retry_allowed = false; next_retry_at = 0 }) s.latest,
        ),
        same,
        only,
        open',
      )
    ]
  ]

  -- What `due` leaves of a record.
  abbrev refreshed : ℕ → Bool → RunRecord → RunRecord
  refreshed now auto r =
      if stale day now auto r then record r { next_retry_at = 0; retry_allowed = false } else r

  lookup-refresh :
      (now : ℕ) (auto : Bool) (r : RunRecord) (m : List (String × RunRecord))
      → lookup k m ≡ some r
      → lookup k (refresh day now auto m) ≡ some (refreshed now auto r)
  unfolding lookup refresh
  lookup-refresh now auto r [] there = cc
  lookup-refresh now auto r ((j, v) ∷ m) there = elim (Bool-cases (j == k)) [
    | inl own ↦ let value : v ≡ r = ground arith in rw (own, sym value) refl
    | inr other ↦ rw other (lookup-refresh now auto r m (ground (arith, there, other)))
  ]

  due-IsPending :
      (now : ℕ) (auto : Bool) (s : RunStore)
      → IsPending today k s
      → IsPending today k (due day now auto s).0
  unfolding due
  due-IsPending now auto s (r, there, same, only, open') =
      let found = lookup-refresh now auto r s.latest there in
      (
        refreshed now auto r,
        found,
        ground (arith, same),
        ground (arith, only),
        ground (arith, open'),
      )

claims_of-append :
    (k : String) (a b : List (String × List Event))
    → claims_of k (a ++ b) ≡ claims_of k a ++ claims_of k b
claims_of-append k [] b = refl
claims_of-append k ((j, es) ∷ a) b = elim (Bool-cases (j == k)) [
  | inl own ↦
      rw (own, claims_of-append k a b)
        (sym (append_assoc (claims es) (claims_of k a) (claims_of k b)))
  | inr other ↦ rw (other, claims_of-append k a b) refl
]

module _ (day : ℕ → String) (today : String) where
  -- The calls of the handler read the clock on one day.
  abbrev pub IsToday : Step → Type 0
  IsToday (check f source t bundle) = IsOnDay day today t
  IsToday (sweep now auto) = Unit
  IsToday (stop index) = Unit

module _ {ℓ} {S : Type ℓ} (unicode : ℕ → ℕ) (day : ℕ → String) (up : Upstream S)
    (today k : String) where
  step-IsPending :
      (x : Step) (w : World S)
      → IsToday day today x
      → IsStore w.runs
      → IsPending today k w.runs
      → let (w', log) = step unicode day up x w in
        (claims_of k log ≡ []) × (IsPending today k w'.runs ⊎ IsConfirmed today k w'.runs)
  step-IsPending (check f source t bundle) w on ok pending = elim (Bool-cases (f.auth_index == k)) [
    | inl own ↦
        let same : f.auth_index ≡ k = (string_eq.beq_iff f.auth_index k).0 own in
        let (quiet, held) : IsHeld today k
            (checkin_one_account_from unicode day up f source t bundle w) =
          subst (λ j. IsHeld today j (checkin_one_account_from unicode day up f source t bundle w))
            same
            (checkin_one_account_from-IsHeld unicode day up today f source t bundle w on ok.distinct
              (subst (λ j. IsPending today j w.runs) (sym same) pending)) in
        (ground (arith, own, quiet), held)
    | inr other ↦ (
      ground (arith, other),
      inl (
          checkin_one_account_from-IsPending unicode day up today k f source t bundle w on ok other
            pending),
    )
  ]
  step-IsPending (sweep now auto) w on ok pending =
      (refl, inl (due-IsPending day today k now auto w.runs pending))
  step-IsPending (stop index) w on ok pending =
      (refl, inl (cancel-IsPending day today k index w.runs pending))

  pub run_steps-claims :
      (xs : List Step) (w : World S)
      → All (IsToday day today) xs
      → IsStore w.runs
      → IsPending today k w.runs
      → ((claims_of k (run_steps unicode day up xs w).1 ≡ [])
          × IsPending today k (run_steps unicode day up xs w).0.runs)
        ⊎ ((ys zs : List Step) × (xs ≡ ys ++ zs)
            × (claims_of k (run_steps unicode day up ys w).1 ≡ [])
            × IsConfirmed today k (run_steps unicode day up ys w).0.runs)
  unfolding run_steps
  run_steps-claims [] w on ok pending = inl (refl, pending)
  run_steps-claims (x ∷ xs) w on ok pending =
      let (w', log) = step unicode day up x w in
      let (quiet, held) = step-IsPending x w on.0 ok pending in
      elim held [
        | inr sure ↦ inr (x ∷ [], xs, refl, rw (claims_of-append, quiet) refl, sure)
        | inl still ↦
            elim (run_steps-claims xs w' on.1 (step-IsStore unicode day up x w ok) still) [
              | inl (rest, kept) ↦ inl (rw (claims_of-append, quiet, rest) refl, kept)
              | inr (ys, zs, split, rest, sure) ↦
                  inr (
                    x ∷ ys,
                    zs,
                    ap (λ l. x ∷ l) split,
                    rw (claims_of-append, quiet, rest) refl,
                    sure,
                  )
            ]
      ]
