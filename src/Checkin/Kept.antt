-- ===== src/Checkin/Kept.antt =====
-- Every operation of the store of check-in results keeps its bounds.
use workbuddy_cpa_plugin.Base.{
  ℕ, ◌≤◌, ◌<◌, ◌≡◌, refl, ◌⊎◌, inl, inr, false, List, [], ◌∷◌, ◌++◌, Option, arith, length,
  Bool-cases, Option-cases, ◌==◌, is_some, String, string_eq, nat_eq, ◌||◌, suc, zero, ◌-◌,
  length-drop, get_elem?,
}
use workbuddy_cpa_plugin.Base.Maps.{
  lookup, insert, AllEntries-insert, AllEntries-lookup, Distinct-insert, length-insert,
}
use workbuddy_cpa_plugin.Checkin.Attempt.{CheckinAttemptResult, running, RunState}
use workbuddy_cpa_plugin.Checkin.Runs.{
  RunStore, RunRecord, reserve, release, record_run, make_room_locked, is_in_flight, blank_record,
  new_record, retries_after, with_record, trim_history, checkin_latest_limit, checkin_history_limit,
  checkin_retry_delays, cancel,
}
use workbuddy_cpa_plugin.Checkin.Account.{}
use workbuddy_cpa_plugin.Checkin.Bounds.{IsRecord, IsStore, make_room-IsStore, make_room-space}

delay-small : (n : ℕ) → (is_some (get_elem? checkin_retry_delays n) ≡ false) ⊎ (n < 3)
delay-small zero = inr (omega arith)
delay-small (suc zero) = inr (omega arith)
delay-small (suc (suc zero)) = inr (omega arith)
delay-small (suc (suc (suc n))) = inl refl

trim_history-short : (h : List RunRecord) → length (trim_history h) ≤ checkin_history_limit
trim_history-short h = ground (arith, length-drop (length h - checkin_history_limit) h)

insert-small :
    (k : String) (r : RunRecord) (m : List (String × RunRecord))
    → length m < checkin_latest_limit
    → length (insert k r m) ≤ checkin_latest_limit
insert-small k r m h = ground (arith, length-insert k r m)

module _ (day : ℕ → String) where
  blank_record-IsRecord :
      (index source : String) (now : ℕ) (state : RunState) (message : String)
      → IsRecord (blank_record day index source now state message)
  blank_record-IsRecord index source now state message = record {
    counted = omega arith;
    allowed = inl refl;
  }

  new_record-IsRecord :
      (index id source : String) (result : CheckinAttemptResult) (now : ℕ) (p : Option RunRecord)
      → retries_after day source now p ≤ 3
      → IsRecord (new_record day index id source result now p)
  unfolding new_record
  new_record-IsRecord index id source result now p few = record {
    counted = few;
    allowed = ground (arith, delay-small (retries_after day source now p));
  }

  pub with_record-IsStore :
      (index : String) (r : RunRecord) (s : RunStore)
      → IsStore s
      → IsRecord r
      → length (insert index r s.latest) ≤ checkin_latest_limit
      → IsStore (with_record index r s)
  with_record-IsStore index r s w ok small = record {
    distinct = Distinct-insert index r s.latest w.distinct;
    small = small;
    short = trim_history-short (s.history ++ r ∷ []);
    records = AllEntries-insert (λ _ r. IsRecord r) index r s.latest ok w.records;
  }

  pub release-IsStore : (index : String) (s : RunStore) → IsStore s → IsStore (release index s)
  unfolding release
  release-IsStore index s w = record {
    distinct = w.distinct;
    small = w.small;
    short = w.short;
    records = w.records;
  }

  pub cancel-IsStore : (index : String) (s : RunStore) → IsStore s → IsStore (cancel index s)
  unfolding cancel
  cancel-IsStore index s w = elim (Option-cases (lookup index s.latest)) [
    | inl absent ↦ rw (absent, cancel) w
    | inr (r, there) ↦
        let old = AllEntries-lookup (λ _ r. IsRecord r) index r s.latest w.records there in
        let less : IsRecord (record r { retry_allowed = false; next_retry_at = 0 }) = record {
          counted = old.counted;
          allowed = inl refl;
        } in
        rw (there, cancel)
          record {
            distinct = Distinct-insert index _ s.latest w.distinct;
            small = ground (
              arith,
              w.small,
              there,
              length-insert index (record r { retry_allowed = false; next_retry_at = 0 }) s.latest,
            );
            short = w.short;
            records = AllEntries-insert (λ _ r. IsRecord r) index _ s.latest less w.records;
          }
  ]

  pub reserve-IsStore :
      (index : String) (now : ℕ) (s : RunStore) → IsStore s → IsStore (reserve day index now s).0
  unfolding reserve
  reserve-IsStore index now s w =
      let roomy = make_room-IsStore day s now w in
      elim (Bool-cases (index == "" || is_in_flight index s)) [
        | inl refused ↦ rw refused w
        | inr free ↦ elim (Bool-cases (is_some (lookup index s.latest))) [
          | inl there ↦
              rw (free, there)
                record {
                  distinct = w.distinct;
                  small = w.small;
                  short = w.short;
                  records = w.records;
                }
          | inr absent ↦ elim (Bool-cases (make_room_locked day s now).1) [
            | inl room ↦
                rw (free, absent, room)
                  record {
                    distinct = Distinct-insert index _ _ roomy.distinct;
                    small = insert-small index _ _ (make_room-space day s now w room);
                    short = roomy.short;
                    records =
                        AllEntries-insert (λ _ r. IsRecord r) index _ _
                          (blank_record-IsRecord index "" now running "") roomy.records;
                  }
            | inr full ↦ rw (free, absent, full) roomy
          ]
        ]
      ]

  pub record_run-IsStore :
      (index id source : String) (result : CheckinAttemptResult) (now : ℕ) (s : RunStore)
      → IsStore s
      → retries_after day source now (lookup index s.latest) ≤ 3
      → IsStore (record_run day index id source result now s).0
  unfolding record_run
  record_run-IsStore index id source result now s w few =
      let r = new_record day index id source result now (lookup index s.latest) in
      let ok = new_record-IsRecord index id source result now (lookup index s.latest) few in
      let roomy = make_room-IsStore day s now w in
      elim (Bool-cases (is_some (lookup index s.latest))) [
        | inl there ↦ rw there (
            with_record-IsStore index r s w ok
              (ground (arith, w.small, there, length-insert index r s.latest)))
        | inr absent ↦ elim (Bool-cases (make_room_locked day s now).1) [
          | inl room ↦
              rw (absent, room)
                (with_record-IsStore index r (make_room_locked day s now).0 roomy ok
                  (insert-small index r _ (make_room-space day s now w room)))
          | inr full ↦ rw (absent, full) roomy
        ]
      ]
