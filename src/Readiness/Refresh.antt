-- ===== src/Readiness/Refresh.antt =====
-- What the callers of workbuddy/model_readiness.go see at the end of a discovery (`finishAuthCall`) and of
-- the panel's refresh (`refreshModelCatalogForAuth`).
use workbuddy_cpa_plugin.Base.{
  ℕ, ◌≡◌, Bool, true, false, ◌&&◌, Option, none, some, if◌then◌else◌, arith,
}
use workbuddy_cpa_plugin.Readiness.{
  ModelReadinessSnapshot, ModelGenerationKey, ModelSnapshotSource, ModelErrorCode, fresh, config,
  is_executable,
}
use workbuddy_cpa_plugin.Readiness.Slots.{
  ModelAuthSlot, snapshot_for_auth_id, finish_auth_call, restore_model_snapshot,
}

-- The error of a refresh: the record of the account is not readable, the discovery failed with a code, or
-- it failed and a catalog of an older source is served.
pub data RefreshError : Type 0 where
  not_readable : RefreshError
  not_fresh : ModelErrorCode → ModelSnapshotSource → RefreshError
  not_discovered : ModelErrorCode → RefreshError

abbrev is_current_source : ModelSnapshotSource → Bool
is_current_source fresh = true
is_current_source config = true
is_current_source _ = false

module _ {ℓ} {C : Type ℓ} where
  abbrev pub restore_if_executable :
      ℕ → ModelReadinessSnapshot C → ModelAuthSlot C → ModelAuthSlot C
  restore_if_executable generation previous slot =
      if is_executable previous.state then restore_model_snapshot generation previous slot else slot

  -- `refreshModelCatalogForAuth`: the argument is `none` when the account's record is not readable, and
  -- otherwise the slot and the snapshot that `ensureForAuth` ends with.
  unfoldable pub refresh_model_catalog_for_auth :
      ℕ
      → ModelReadinessSnapshot C
      → ModelAuthSlot C
      → Option (ModelAuthSlot C × ModelReadinessSnapshot C)
      → ModelAuthSlot C × ModelReadinessSnapshot C × Option RefreshError
  unfolding restore_model_snapshot
  refresh_model_catalog_for_auth generation previous slot none =
      (restore_if_executable generation previous slot, previous, some not_readable)
  refresh_model_catalog_for_auth generation previous slot (some (after, current)) =
      if is_executable current.state && is_current_source current.model_source
      then (after, current, none)
      else if is_executable current.state
      then (after, current, some (not_fresh current.error_code current.model_source))
      else (
        restore_if_executable generation previous after,
        previous,
        some (not_discovered current.error_code),
      )

  -- Unless the configuration changes, what the end of a discovery returns is what readers of the account
  -- then see, whether its snapshot was published or was outdated, given that the snapshot has the stamp of
  -- the discovery's key.
  pub finish_auth_call-snapshot_for_auth_id :
      (empty : C) (generation : ℕ) (key : ModelGenerationKey) (g : ℕ)
      (snapshot : ModelReadinessSnapshot C) (slot : ModelAuthSlot C)
      → snapshot.config_generation ≡ key.config
      → (finish_auth_call empty generation key g snapshot slot).1
        ≡ snapshot_for_auth_id empty generation
            (finish_auth_call empty generation key g snapshot slot).0
  unfolding finish_auth_call snapshot_for_auth_id
  finish_auth_call-snapshot_for_auth_id empty generation key g snapshot slot h = ground arith

  -- A restored snapshot is what readers see.
  restored_state :
      (empty : C) (generation : ℕ) (previous : ModelReadinessSnapshot C) (slot : ModelAuthSlot C)
      → (snapshot_for_auth_id empty generation
          (restore_model_snapshot generation previous slot)).state
        ≡ previous.state
  unfolding restore_model_snapshot snapshot_for_auth_id
  restored_state empty generation previous slot = ground arith

  pub refresh_executable :
      (empty : C) (generation : ℕ) (previous current : ModelReadinessSnapshot C)
      (slot after : ModelAuthSlot C)
      → is_executable previous.state ≡ true
      → snapshot_for_auth_id empty generation after ≡ current
      → (is_executable
            (snapshot_for_auth_id empty generation
              (refresh_model_catalog_for_auth generation previous slot none).0).state
          ≡ true)
        × (is_executable
              (snapshot_for_auth_id empty generation
                (refresh_model_catalog_for_auth generation previous slot
                  (some (after, current))).0).state
            ≡ true)
        × (is_executable
              (refresh_model_catalog_for_auth generation previous slot
                (some (after, current))).1.state
            ≡ true)
  unfolding refresh_model_catalog_for_auth
  refresh_executable empty generation previous current slot after h e = ground (
    arith,
    restored_state empty generation previous slot,
    restored_state empty generation previous after,
  )
