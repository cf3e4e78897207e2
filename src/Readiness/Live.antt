-- ===== src/Readiness/Live.antt =====
-- What each step of Readiness/Calls.antt keeps: the stamps of a slot and of its calls, and that a slot
-- that loads has a call at work.
use workbuddy_cpa_plugin.Base.{
  ℕ, suc, ◌+◌, ◌≤◌, ◌<◌, ◌≡◌, refl, sym, ap, ◌⊎◌, inl, inr, true, false, not, ◌&&◌, List, [], ◌∷◌,
  Option, none, some, ◌==◌, nat_eq, is_some, length, arith, Bool-cases, Option-cases,
}
use workbuddy_cpa_plugin.Base.Maps.{
  lookup, AllEntries-insert, AllEntries-keep, AllEntries-lookup, Distinct-insert, Distinct-keep,
  lookup-insert, lookup-delete,
}
use workbuddy_cpa_plugin.Readiness.{
  ModelReadinessSnapshot, ModelGenerationKey, ModelAuthCall, is_loading, is_executable,
  same_key_iff, next64, config_key, failed, auth_invalid,
}
use workbuddy_cpa_plugin.Readiness.Slots.{
  ModelAuthSlot, begin_call, rekey, publish, settled, reject_auth, mark_auth_not_started,
  restore_model_snapshot, finish_auth_call, auth_generation_current, not_started_snapshot,
}
use workbuddy_cpa_plugin.Readiness.Calls.{
  Step, begins, gives_up, finishes, rejects, marks, restores, advances, Runtime, give_up, finish,
  step, run,
}
use workbuddy_cpa_plugin.Readiness.Stuck.{
  limit64, is_waiting, IsStamped, IsCall, IsSlot, newer-called, rekey-IsSlot,
}

module _ {ℓ} {C : Type ℓ} (generation : ℕ) (slot : ModelAuthSlot C) where
  past-waiting :
      (g : ℕ) (call : ModelAuthCall) (c : Option (ModelReadinessSnapshot C))
      → IsStamped generation slot c
      → IsCall generation slot.next_auth slot.key g call
      → auth_generation_current generation call.key g slot ≡ false
      → (is_waiting generation slot.next_auth c ≡ false) ⊎ ((slot.next_auth == g) ≡ false)
  past-waiting g call none w k past = inl refl
  past-waiting g call (some c) w k past =
      ground (arith, w.0, w.1, w.2, k.own, k.configured, same_key_iff slot.key call.key)

  newer-IsStamped :
      (c : Option (ModelReadinessSnapshot C))
      → generation + 1 < limit64
      → IsStamped generation slot c
      → IsStamped (next64 generation) slot c
        × (is_waiting (next64 generation) slot.next_auth c ≡ false)
  newer-IsStamped none room w = (tt, refl)
  newer-IsStamped (some c) room w = ((w.0, omega (arith, w.1), w.2), ground (arith, w.1))

module _ {ℓ} {C : Type ℓ} (generation : ℕ) (slot : ModelAuthSlot C) where
  begin_call-IsSlot :
      (content : C) (key : ModelGenerationKey)
      → key.config ≡ generation
      → slot.next_auth + 1 < limit64
      → IsSlot generation slot
      → IsSlot generation (begin_call content key slot).0
        × ((begin_call content key slot).0.next_auth ≤ slot.next_auth + 1)
  unfolding begin_call
  begin_call-IsSlot content key own room w =
      let s = rekey key slot in
      let r = rekey-IsSlot generation slot key (omega arith) room w in
      elim (Option-cases (settled s.next_auth s.current)) [
        | inr (c, e) ↦ rw (e, begin_call) (r.0, r.3)
        | inl e ↦ elim (Bool-cases (is_some (lookup s.next_auth s.calls))) [
          | inl waits ↦ rw (e, waits, begin_call) (r.0, r.3)
          | inr free ↦
              rw (e, free, begin_call)
                (
                  record {
                    keyed = r.0.keyed;
                    distinct = Distinct-insert s.next_auth _ s.calls r.0.distinct;
                    stamped = (
                      omega arith,
                      omega arith,
                      inr (ap (λ (k : ModelGenerationKey). k.config) (sym r.1)),
                    );
                    called =
                        AllEntries-insert (IsCall generation s.next_auth s.key) s.next_auth _
                          s.calls
                          (record {
                            past = omega arith;
                            configured = omega arith;
                            own = inr (sym r.1);
                            outdated = inl refl;
                          })
                          r.0.called;
                    live = inr (
                        ground (
                          arith,
                          lookup-insert s.next_auth s.next_auth
                              (record { key = key; gave_up = false }) s.calls,
                        ));
                  },
                  r.3,
                )
        ]
      ]

  give_up-IsSlot :
      (empty : C) (g : ℕ)
      → IsSlot generation slot
      → IsSlot generation (give_up empty generation g slot)
  unfolding give_up
  give_up-IsSlot empty g w = elim (Option-cases (lookup g slot.calls)) [
    | inl e ↦ rw (e, give_up) w
    | inr (call, e) ↦ elim (Bool-cases (auth_generation_current generation call.key g slot)) [
      | inl now ↦ rw (e, now, give_up) w
      | inr past ↦
          let c =
            AllEntries-lookup (IsCall generation slot.next_auth slot.key) g call slot.calls w.called
              e in
          let late : (g < slot.next_auth) ⊎ (call.key.config < generation) =
            ground (arith, c.own, c.past, c.configured, same_key_iff slot.key call.key) in
          rw (e, past, give_up)
            (record {
              keyed = w.keyed;
              distinct = Distinct-insert g _ slot.calls w.distinct;
              stamped = w.stamped;
              called =
                  AllEntries-insert (IsCall generation slot.next_auth slot.key) g _ slot.calls
                    (record {
                      past = c.past;
                      configured = c.configured;
                      own = c.own;
                      outdated = inr late;
                    })
                    w.called;
              live = ground (
                arith,
                w.live,
                lookup-insert g slot.next_auth (record call { gave_up = true }) slot.calls,
              );
            })
    ]
  ]

  give_up-next_auth :
      (empty : C) (g : ℕ) → (give_up empty generation g slot).next_auth ≡ slot.next_auth
  unfolding give_up
  give_up-next_auth empty g = elim (Option-cases (lookup g slot.calls)) [
    | inl e ↦ rw (e, give_up) refl
    | inr (call, e) ↦ elim (Bool-cases (auth_generation_current generation call.key g slot)) [
      | inl now ↦ rw (e, now, give_up) refl
      | inr past ↦ rw (e, past, give_up) refl
    ]
  ]

  finish-IsSlot :
      (empty : C) (g : ℕ) (snapshot : ModelReadinessSnapshot C)
      → IsSlot generation slot
      → IsSlot generation (finish empty generation g snapshot slot)
        × ((finish empty generation g snapshot slot).next_auth ≡ slot.next_auth)
  unfolding finish finish_auth_call
  finish-IsSlot empty g snapshot w = elim (Option-cases (lookup g slot.calls)) [
    | inl e ↦ rw (e, finish) (w, refl)
    | inr (call, e) ↦ elim (Bool-cases (is_loading snapshot.state && not call.gave_up)) [
      | inl early ↦ rw (e, early, finish) (w, refl)
      | inr over ↦
          let c =
            AllEntries-lookup (IsCall generation slot.next_auth slot.key) g call slot.calls w.called
              e in
          let calls =
            AllEntries-keep (IsCall generation slot.next_auth slot.key) (λ j _. not (j == g))
              slot.calls w.called in
          let same = same_key_iff slot.key call.key in
          elim (Bool-cases (auth_generation_current generation call.key g slot)) [
            | inl now ↦
                rw (e, over, now, finish)
                  (
                    record {
                      keyed = w.keyed;
                      distinct = Distinct-keep (λ j _. not (j == g)) slot.calls w.distinct;
                      stamped = (c.past, c.configured, inr (ground (arith, same)));
                      called = calls;
                      live = inl (ground (arith, c.outdated));
                    },
                    refl,
                  )
            | inr past ↦
                rw (e, over, past, finish)
                  (
                    record {
                      keyed = w.keyed;
                      distinct = Distinct-keep (λ j _. not (j == g)) slot.calls w.distinct;
                      stamped = w.stamped;
                      called = calls;
                      live = ground (
                        arith,
                        w.live,
                        past-waiting generation slot g call slot.current w.stamped c past,
                        lookup-delete g slot.next_auth slot.calls w.distinct,
                      );
                    },
                    refl,
                  )
          ]
    ]
  ]

  publish-IsSlot :
      (snapshot : ModelReadinessSnapshot C)
      → is_loading snapshot.state ≡ false
      → slot.next_auth + 1 < limit64
      → IsSlot generation slot
      → IsSlot generation (publish generation snapshot slot)
        × ((publish generation snapshot slot).next_auth ≤ slot.next_auth + 1)
  publish-IsSlot snapshot still room w =
      let s = rekey (config_key generation) slot in
      let r = rekey-IsSlot generation slot (config_key generation) (omega arith) room w in
      (
        record {
          keyed = r.0.keyed;
          distinct = r.0.distinct;
          stamped =
              (omega arith, omega arith, inr (ap (λ (k : ModelGenerationKey). k.config) (sym r.1)));
          called = r.0.called;
          live = inl (ground arith);
        },
        r.3,
      )

  advance-IsSlot :
      generation + 1 < limit64 → IsSlot generation slot → IsSlot (next64 generation) slot
  advance-IsSlot room w = record {
    keyed = omega (arith, w.keyed);
    distinct = w.distinct;
    stamped = (newer-IsStamped generation slot slot.current room w.stamped).0;
    called =
        newer-called generation (next64 generation) slot.next_auth slot.key slot.calls (omega arith)
          w.called;
    live = inl (newer-IsStamped generation slot slot.current room w.stamped).1;
  }

-- The counters stay below 2^64 for a number of steps.
abbrev pub HasRoom {ℓ} : {C : Type ℓ} → ℕ → Runtime C → Type 0
HasRoom n r = (r.slot.next_auth + n < limit64) × (r.generation + n < limit64)

abbrev pub IsRuntime {ℓ} : {C : Type ℓ} → Runtime C → Type ℓ
IsRuntime r = IsSlot r.generation r.slot

module _ {ℓ} {C : Type ℓ} (empty : C) where
  step-IsRuntime :
      (n : ℕ) (x : Step C) (r : Runtime C)
      → HasRoom (suc n) r
      → IsRuntime r
      → IsRuntime (step empty x r) × HasRoom n (step empty x r)
  unfolding step reject_auth mark_auth_not_started restore_model_snapshot
  step-IsRuntime n (begins content token identity) r room w =
      let key : ModelGenerationKey = record {
        config = r.generation;
        token_sha256 = token;
        identity_sha256 = identity;
      } in
      let b = begin_call-IsSlot r.generation r.slot content key refl (omega (arith, room.0)) w in
      (b.0, (omega (arith, room.0, b.1), omega (arith, room.1)))
  step-IsRuntime n (gives_up g) r room w =
      let same : (give_up empty r.generation g r.slot).next_auth ≡ r.slot.next_auth =
        give_up-next_auth r.generation r.slot empty g in
      (
        give_up-IsSlot r.generation r.slot empty g w,
        (omega (arith, room.0, same), omega (arith, room.1)),
      )
  step-IsRuntime n (finishes g snapshot) r room w =
      let b = finish-IsSlot r.generation r.slot empty g snapshot w in
      (b.0, (omega (arith, room.0, b.1), omega (arith, room.1)))
  step-IsRuntime n rejects r room w =
      let rejected : ModelReadinessSnapshot C = record (not_started_snapshot empty r.generation) {
        state = failed;
        error_code = auth_invalid;
      } in
      let b = publish-IsSlot r.generation r.slot rejected refl (omega (arith, room.0)) w in
      (b.0, (omega (arith, room.0, b.1), omega (arith, room.1)))
  step-IsRuntime n marks r room w =
      let b =
        publish-IsSlot r.generation r.slot (not_started_snapshot empty r.generation) refl
          (omega (arith, room.0)) w in
      (b.0, (omega (arith, room.0, b.1), omega (arith, room.1)))
  step-IsRuntime n (restores snapshot) r room w = elim (Bool-cases (is_executable snapshot.state)) [
    | inl live ↦
        let b =
          publish-IsSlot r.generation r.slot snapshot (ground arith) (omega (arith, room.0)) w in
        rw live (b.0, (omega (arith, room.0, b.1), omega (arith, room.1)))
    | inr dead ↦ rw dead (w, (omega (arith, room.0), omega (arith, room.1)))
  ]
  step-IsRuntime n advances r room w = (
    advance-IsSlot r.generation r.slot (omega (arith, room.1)) w,
    (omega (arith, room.0), omega (arith, room.1)),
  )

  run-IsRuntime :
      (steps : List (Step C)) (r : Runtime C)
      → HasRoom (length steps) r
      → IsRuntime r
      → IsRuntime (run empty steps r)
  unfolding run
  run-IsRuntime [] r room w = w
  run-IsRuntime (x ∷ xs) r room w =
      let s = step-IsRuntime (length xs) x r room w in run-IsRuntime xs (step empty x r) s.1 s.0

  -- Begin with a slot in which the stamps are in order (such as one that was never used), and take any
  -- steps - beginnings, give-ups and ends of discoveries, rejected tokens, resets, restored catalogs and
  -- changes of the configuration, in any order - fewer than the counters have room for below 2^64. Then,
  -- if readers see the account loading at its present generation, a discovery of that generation is at
  -- work: no account is left loading with nothing that will end it.
  pub run_live :
      (steps : List (Step C)) (r : Runtime C)
      → HasRoom (length steps) r
      → IsRuntime r
      → (is_waiting
            (run empty steps r).generation
            (run empty steps r).slot.next_auth
            (run empty steps r).slot.current
          ≡ false)
        ⊎ (is_some (lookup (run empty steps r).slot.next_auth (run empty steps r).slot.calls)
            ≡ true)
  run_live steps r room w = (run-IsRuntime steps r room w).live
