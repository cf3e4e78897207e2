-- ===== src/Checkin/Counted.antt =====
-- The retries that the store of workbuddy/checkin_state.go counts for an account and a day, and what each
-- of its operations adds to them.
use workbuddy_cpa_plugin.Base.{
  ℕ, ◌+◌, ◌≡◌, refl, ap, inl, inr, Bool, false, ◌&&◌, List, [], ◌∷◌, Option, none, some, arith,
  if◌then◌else◌, Bool-cases, Option-cases, ◌==◌, String, string_eq, nat_eq, beq_self,
}
use workbuddy_cpa_plugin.Base.Maps.{lookup, lookup-insert, lookup-delete, Distinct}
use workbuddy_cpa_plugin.Checkin.Attempt.{CheckinAttemptResult, running}
use workbuddy_cpa_plugin.Checkin.Runs.{
  RunStore, RunRecord, make_room_locked, oldest_from, is_protected, blank_record, new_record,
  record_run, reserve, cancel, refresh,
}
use workbuddy_cpa_plugin.Checkin.Bounds.{make_room-lookup}

-- The retries that a record counts for a day.
abbrev pub counted_in : String → Option RunRecord → ℕ
counted_in today none = 0
counted_in today (some r) = if r.day == today then r.retry_count else 0

-- The retries of an account that the store counts for a day.
abbrev pub counted : String → String → RunStore → ℕ
counted today k s = counted_in today (lookup k s.latest)

module _ (day : ℕ → String) (today k : String) where
  -- An entry that may go counts nothing.
  pub counted-free :
      (now : ℕ) (s : RunStore) (v : RunRecord)
      → day now ≡ today
      → is_protected day s now k v ≡ false
      → counted_in today (some v) ≡ 0
  counted-free now s v h free = ground (arith, free, ap (λ d. v.day == d) h)

  pub counted-make_room :
      (now : ℕ) (s : RunStore)
      → day now ≡ today
      → Distinct s.latest
      → counted today k (make_room_locked day s now).0 ≡ counted today k s
  unfolding make_room_locked
  counted-make_room now s h d =
      let oldest = oldest_from day s now "" 0 s.latest in
      let deleted = lookup-delete oldest k s.latest d in
      elim (Option-cases (lookup k s.latest)) [
        | inl absent ↦ ground (arith, absent, deleted)
        | inr (v, there) ↦ elim (Bool-cases (is_protected day s now k v)) [
          | inl safe ↦ rw (make_room-lookup day s now k v d there safe, there) refl
          | inr free ↦ ground (arith, there, deleted, counted-free now s v h free)
        ]
      ]

  pub counted-refresh :
      (now : ℕ) (auto : Bool) (m : List (String × RunRecord))
      → counted_in today (lookup k (refresh day now auto m)) ≡ counted_in today (lookup k m)
  unfolding lookup refresh
  counted-refresh now auto [] = refl
  counted-refresh now auto ((j, v) ∷ m) = elim (Bool-cases (j == k)) [
    | inl own ↦ rw own (ground arith)
    | inr other ↦ rw other (counted-refresh now auto m)
  ]

  pub counted-cancel :
      (j : String) (s : RunStore) → counted today k (cancel j s) ≡ counted today k s
  unfolding cancel
  counted-cancel j s = elim (Option-cases (lookup j s.latest)) [
    | inl absent ↦ ground (arith, absent)
    | inr (v, found) ↦ elim (Bool-cases (j == k)) [
      | inl own ↦ ground (
        arith,
        found,
        own,
        (string_eq.beq_iff j k).0 own,
        lookup-insert j k (record v { retry_allowed = false; next_retry_at = 0 }) s.latest,
      )
      | inr other ↦ ground (
        arith,
        found,
        other,
        lookup-insert j k (record v { retry_allowed = false; next_retry_at = 0 }) s.latest,
      )
    ]
  ]

  pub counted-reserve :
      (j : String) (now : ℕ) (s : RunStore)
      → day now ≡ today
      → Distinct s.latest
      → counted today k (reserve day j now s).0 ≡ counted today k s
  unfolding reserve
  counted-reserve j now s h d =
      let roomy = counted-make_room now s h d in
      let inserted =
        lookup-insert j k (blank_record day j "" now running "")
          (make_room_locked day s now).0.latest in
      elim (Bool-cases (j == k)) [
        | inl own ↦ ground (arith, roomy, inserted, own, (string_eq.beq_iff j k).0 own)
        | inr other ↦ ground (arith, roomy, inserted, other)
      ]

  pub counted-record_run_other :
      (j id source : String) (result : CheckinAttemptResult) (now : ℕ) (s : RunStore)
      → day now ≡ today
      → Distinct s.latest
      → (j == k) ≡ false
      → counted today k (record_run day j id source result now s).0 ≡ counted today k s
  unfolding record_run
  counted-record_run_other j id source result now s h d other =
      let new = new_record day j id source result now (lookup j s.latest) in
      let roomy = counted-make_room now s h d in
      let inserted = lookup-insert j k new (make_room_locked day s now).0.latest in
      let replaced = lookup-insert j k new s.latest in
      ground (arith, roomy, inserted, replaced, other)

  -- A record of the account on the day adds one if it is for a retry.
  pub counted-record_run :
      (id source : String) (result : CheckinAttemptResult) (now : ℕ) (s : RunStore) (p : RunRecord)
      → day now ≡ today
      → lookup k s.latest ≡ some p
      → counted today k (record_run day k id source result now s).0
        ≡ (if source == "retry" && p.day == today then 1 else 0) + counted today k s
  unfolding record_run new_record
  counted-record_run id source result now s p h there =
      let new = new_record day k id source result now (lookup k s.latest) in
      let replaced = lookup-insert k k new s.latest in
      ground (
        arith,
        there,
        replaced,
        beq_self k,
        beq_self today,
        ap (λ d. p.day == d) h,
        ap (λ d. d == today) h,
      )
