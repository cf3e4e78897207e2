-- ===== src/Readiness/Calls.antt =====
-- The slot of one account as calls of `ensureForAuth` and changes of the configuration interleave. A
-- call begins, may find while saving that it is outdated, and finishes; between these any other step
-- may happen.
use workbuddy_cpa_plugin.Base.{
  ℕ, true, not, ◌&&◌, List, [], ◌∷◌, none, some, String, if◌then◌else◌, nat_eq,
}
use workbuddy_cpa_plugin.Base.Maps.{lookup, insert}
use workbuddy_cpa_plugin.Readiness.{ModelReadinessSnapshot, is_loading, is_executable, next64}
use workbuddy_cpa_plugin.Readiness.Slots.{
  ModelAuthSlot, begin_call, reject_auth, mark_auth_not_started, restore_model_snapshot,
  finish_auth_call, auth_generation_current,
}

-- `begins` has the realm's content and the hashes of token and identity.
pub data Step {ℓ} (C : Type ℓ) : Type ℓ where
  begins : C → String → String → Step C
  gives_up : ℕ → Step C
  finishes : ℕ → ModelReadinessSnapshot C → Step C
  rejects : Step C
  marks : Step C
  restores : ModelReadinessSnapshot C → Step C
  advances : Step C

-- The configuration's generation, and the account's slot.
pub record Runtime {ℓ} (C : Type ℓ) : Type ℓ where
  pub generation : ℕ
  pub slot : ModelAuthSlot C

module _ {ℓ} {C : Type ℓ} (empty : C) where
  -- The save of `saveModelsForGeneration` finds that the call is outdated.
  unfoldable pub give_up : ℕ → ℕ → ModelAuthSlot C → ModelAuthSlot C
  give_up generation g slot = elim (lookup g slot.calls) [
    | none ↦ slot
    | some call ↦
        if auth_generation_current generation call.key g slot
        then slot
        else record slot { calls = insert g (record call { gave_up = true }) slot.calls }
  ]

  -- The end of a call, with the stamps of its beginning. Only a call that gave up ends with its
  -- snapshot still loading.
  unfoldable pub finish : ℕ → ℕ → ModelReadinessSnapshot C → ModelAuthSlot C → ModelAuthSlot C
  unfolding finish_auth_call
  finish generation g snapshot slot = elim (lookup g slot.calls) [
    | none ↦ slot
    | some call ↦
        if is_loading snapshot.state && not call.gave_up
        then slot
        else (finish_auth_call empty generation call.key g
            (record snapshot { config_generation = call.key.config; auth_generation = g }) slot).0
  ]

  unfoldable pub step : Step C → Runtime C → Runtime C
  unfolding give_up finish begin_call reject_auth mark_auth_not_started restore_model_snapshot
  step (begins content token identity) r = record r {
    slot =
        (begin_call content
          (record { config = r.generation; token_sha256 = token; identity_sha256 = identity })
          r.slot).0;
  }
  step (gives_up g) r = record r { slot = give_up r.generation g r.slot }
  step (finishes g snapshot) r = record r { slot = finish r.generation g snapshot r.slot }
  step rejects r = record r { slot = reject_auth empty r.generation r.slot }
  step marks r = record r { slot = mark_auth_not_started empty r.generation r.slot }
  step (restores snapshot) r =
      if is_executable snapshot.state
      then record r { slot = restore_model_snapshot r.generation snapshot r.slot }
      else r
  step advances r = record r { generation = next64 r.generation }

  unfoldable pub run : List (Step C) → Runtime C → Runtime C
  run [] r = r
  run (x ∷ xs) r = run xs (step x r)
