-- ===== src/Readiness.antt =====
-- workbuddy/model_readiness.go: the model catalog of each account, with the generations that keep an
-- outdated discovery from being published. `Slots` is the account's slot and `Calls` the interleavings of
-- its calls; Stuck and Live hold what every such sequence keeps; `Refresh` is about the callers, `Identity`
-- about the order in which discoveries of one identity are saved, `Metadata` about the shared metadata,
-- and `Outcome` about the snapshot that a discovery ends with. The contents of a catalog (realm, models,
-- facts, promotions and tiers) are one value of a type that is a parameter; cloning them is the identity
-- here.
pub mod Slots
pub mod Calls
pub mod Stuck
pub mod Live
pub mod Refresh
pub mod Metadata
pub mod Identity
pub mod Outcome
mod Tests
use workbuddy_cpa_plugin.Base.{
  ℕ, ◌+◌, ◌%◌, ◌≡◌, ◌↔◌, Bool, true, false, ◌&&◌, ◌||◌, Option, none, some, String, arith, Eq, ◌==◌,
  nat_eq, string_eq,
}

-- A `uint64` counter, incremented.
abbrev pub next64 : ℕ → ℕ
next64 n = (n + 1) % 18_446_744_073_709_551_616

pub data ModelReadinessState : Type 0 where
  not_started loading ready stale failed : ModelReadinessState

-- `executable`.
abbrev pub is_executable : ModelReadinessState → Bool
is_executable ready = true
is_executable stale = true
is_executable _ = false

abbrev pub is_loading : ModelReadinessState → Bool
is_loading loading = true
is_loading _ = false

-- `nowhere` is "none".
pub data ModelSnapshotSource : Type 0 where
  fresh cache config nowhere : ModelSnapshotSource

pub data ModelErrorCode : Type 0 where
  no_error auth_invalid workbuddy_transport workbuddy_http workbuddy_schema models_dev_transport
        models_dev_http models_dev_schema cache_read cache_write :
      ModelErrorCode

pub record ModelReadinessSnapshot {ℓ} (C : Type ℓ) : Type ℓ where
  pub state : ModelReadinessState
  pub model_source : ModelSnapshotSource
  pub metadata_source : ModelSnapshotSource
  pub models_fetched_at : ℕ
  pub metadata_fetched_at : ℕ
  pub error_code : ModelErrorCode
  pub content : C
  pub config_generation : ℕ
  pub auth_generation : ℕ
  pub identity_sha256 : String

-- The hashes are texts; sha256 is crypto/sha256's.
pub record ModelGenerationKey : Type 0 where
  pub config : ℕ
  pub token_sha256 : String
  pub identity_sha256 : String

abbrev pub same_key : ModelGenerationKey → ModelGenerationKey → Bool
same_key a b =
    a.config == b.config
    && a.token_sha256 == b.token_sha256
    && a.identity_sha256 == b.identity_sha256

pub same_key_iff : (a b : ModelGenerationKey) → (same_key a b ≡ true) ↔ (a ≡ b)
same_key_iff a b = ground (
  arith,
  string_eq.beq_iff a.token_sha256 b.token_sha256,
  string_eq.beq_iff a.identity_sha256 b.identity_sha256,
)

-- The key of a slot for which no token is known.
abbrev pub config_key : ℕ → ModelGenerationKey
config_key generation = record { config = generation; token_sha256 = ""; identity_sha256 = "" }

-- A discovery at work: its key, and whether its save has found that it is outdated.
pub record ModelAuthCall : Type 0 where
  pub key : ModelGenerationKey
  pub gave_up : Bool
