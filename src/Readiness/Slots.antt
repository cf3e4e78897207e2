-- ===== src/Readiness/Slots.antt =====
-- `modelAuthSlot` of workbuddy/model_readiness.go. Each operation holds the slot's mutex and the read
-- lock on the configuration, so the configuration's generation is one argument.
use workbuddy_cpa_plugin.Base.{
  ℕ, Bool, false, not, ◌&&◌, List, Option, none, some, if◌then◌else◌, ◌==◌, nat_eq, is_some,
}
use workbuddy_cpa_plugin.Base.Maps.{lookup, insert, delete}
use workbuddy_cpa_plugin.Readiness.{
  ModelReadinessSnapshot, ModelGenerationKey, ModelAuthCall, not_started, loading, failed, nowhere,
  no_error, auth_invalid, is_loading, same_key, config_key, next64,
}

pub record ModelAuthSlot {ℓ} (C : Type ℓ) : Type ℓ where
  pub current : Option (ModelReadinessSnapshot C)
  pub calls : List (ℕ × ModelAuthCall)
  pub next_auth : ℕ
  pub key : ModelGenerationKey

-- What the locked part of `ensureForAuth` decides: to return a snapshot, to wait for a call that is at
-- work, or to start one.
pub data Begin {ℓ} (C : Type ℓ) : Type ℓ where
  answers : ModelReadinessSnapshot C → Begin C
  waits : Begin C
  starts : ℕ → Begin C

module _ {ℓ} {C : Type ℓ} where
  -- A slot that is used with another key gets a new generation.
  unfoldable pub rekey : ModelGenerationKey → ModelAuthSlot C → ModelAuthSlot C
  rekey key slot =
      if same_key slot.key key
      then slot
      else record slot { key = key; next_auth = next64 slot.next_auth }

  -- The answer of a slot at a generation, unless a discovery is needed.
  unfoldable pub settled : ℕ → Option (ModelReadinessSnapshot C) → Option (ModelReadinessSnapshot C)
  settled g none = none
  settled g (some c) = if c.auth_generation == g && not (is_loading c.state) then some c else none

  abbrev pub loading_snapshot : C → ModelGenerationKey → ℕ → ModelReadinessSnapshot C
  loading_snapshot content key g = record {
    state = loading;
    model_source = nowhere;
    metadata_source = nowhere;
    models_fetched_at = 0;
    metadata_fetched_at = 0;
    error_code = no_error;
    content = content;
    config_generation = key.config;
    auth_generation = g;
    identity_sha256 = key.identity_sha256;
  }

  -- The locked part of `ensureForAuth` for a valid token; the content is the realm and no models.
  unfoldable pub begin_call : C → ModelGenerationKey → ModelAuthSlot C → ModelAuthSlot C × Begin C
  unfolding rekey
  begin_call content key slot =
      let s = rekey key slot in
      let g = s.next_auth in
      elim (settled g s.current) [
        | some c ↦ (s, answers c)
        | none ↦ if is_some (lookup g s.calls) then (s, waits) else (
          record s {
            current = some (loading_snapshot content key g);
            calls = insert g (record { key = key; gave_up = false }) s.calls;
          },
          starts g,
        )
      ]

  -- `notStartedModelReadinessSnapshot`.
  abbrev pub not_started_snapshot : C → ℕ → ModelReadinessSnapshot C
  not_started_snapshot empty config = record {
    state = not_started;
    model_source = nowhere;
    metadata_source = nowhere;
    models_fetched_at = 0;
    metadata_fetched_at = 0;
    error_code = no_error;
    content = empty;
    config_generation = config;
    auth_generation = 0;
    identity_sha256 = "";
  }

  -- The slot with a snapshot stored under the configuration's own key.
  abbrev pub publish : ℕ → ModelReadinessSnapshot C → ModelAuthSlot C → ModelAuthSlot C
  publish config snapshot slot =
      let s = rekey (config_key config) slot in
      record s {
        current =
            some (record snapshot { config_generation = config; auth_generation = s.next_auth });
      }

  -- The part of `ensureForAuth` for a stored auth that does not parse.
  unfoldable pub reject_auth : C → ℕ → ModelAuthSlot C → ModelAuthSlot C
  unfolding rekey
  reject_auth empty config slot =
      publish config
        (record (not_started_snapshot empty config) { state = failed; error_code = auth_invalid })
        slot

  -- `markAuthNotStarted`.
  unfoldable pub mark_auth_not_started : C → ℕ → ModelAuthSlot C → ModelAuthSlot C
  unfolding rekey
  mark_auth_not_started empty config slot = publish config (not_started_snapshot empty config) slot

  -- `restoreModelSnapshot`.
  unfoldable pub restore_model_snapshot :
      ℕ → ModelReadinessSnapshot C → ModelAuthSlot C → ModelAuthSlot C
  unfolding rekey
  restore_model_snapshot config snapshot slot = publish config snapshot slot

  -- `authGenerationCurrentLocked`.
  abbrev pub auth_generation_current : ℕ → ModelGenerationKey → ℕ → ModelAuthSlot C → Bool
  auth_generation_current config key g slot =
      same_key slot.key key && slot.next_auth == g && config == key.config

  abbrev pub of_config : C → ℕ → Option (ModelReadinessSnapshot C) → ModelReadinessSnapshot C
  of_config empty config none = not_started_snapshot empty config
  of_config empty config (some c) =
      if c.config_generation == config then c else not_started_snapshot empty config

  -- `snapshotForAuthID`: what readers see.
  unfoldable pub snapshot_for_auth_id : C → ℕ → ModelAuthSlot C → ModelReadinessSnapshot C
  snapshot_for_auth_id empty config slot = of_config empty config slot.current

  -- `finishAuthCall`: the slot, and what the call returns. Each call ends once, so the entry under its
  -- generation is its own.
  unfoldable pub finish_auth_call :
      C
      → ℕ
      → ModelGenerationKey
      → ℕ
      → ModelReadinessSnapshot C
      → ModelAuthSlot C
      → ModelAuthSlot C × ModelReadinessSnapshot C
  finish_auth_call empty config key g snapshot slot =
      let calls = delete g slot.calls in
      if auth_generation_current config key g slot
      then (record slot { current = some snapshot; calls = calls }, snapshot)
      else (record slot { calls = calls }, of_config empty config slot.current)
