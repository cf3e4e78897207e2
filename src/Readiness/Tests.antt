-- ===== src/Readiness/Tests.antt =====
-- The theorems on model catalogs at concrete slots; a content is a text.
use workbuddy_cpa_plugin.Base.{
  ◌≡◌, ◌≤◌, ◌⊎◌, refl, inl, true, false, not, List, [], ◌∷◌, none, some, String, arith, is_some,
  nat_eq,
}
use workbuddy_cpa_plugin.Base.Maps.{lookup}
use workbuddy_cpa_plugin.Readiness.{
  ModelReadinessSnapshot, ready, fresh, cache, config_key, is_executable, models_dev_transport,
}
use workbuddy_cpa_plugin.Readiness.Slots.{
  not_started_snapshot, finish_auth_call, snapshot_for_auth_id,
}
use workbuddy_cpa_plugin.Readiness.Calls.{Step, begins, gives_up, finishes, advances, Runtime, run}
use workbuddy_cpa_plugin.Readiness.Stuck.{is_waiting}
use workbuddy_cpa_plugin.Readiness.Live.{run_live}
use workbuddy_cpa_plugin.Readiness.Outcome.{
  fetched, missing, found, Dated, Selection, discover_error, is_error, is_ready, without_store,
  discover_configured, discover, not_written,
}
use workbuddy_cpa_plugin.Readiness.Identity.{Shared, Save, save_all, AreUpTo, IsOf, save_all_newest}
use workbuddy_cpa_plugin.Readiness.Metadata
use workbuddy_cpa_plugin.Readiness.Refresh.{
  finish_auth_call-snapshot_for_auth_id, refresh_executable, refresh_model_catalog_for_auth,
}

abbrev served : ModelReadinessSnapshot String
served = record (not_started_snapshot "glm" 0) {
  state = ready;
  model_source = fresh;
  metadata_source = fresh;
}

abbrev unused : Runtime String
unused = record {
  generation = 0;
  slot = record { current = none; calls = []; next_auth = 0; key = config_key 0 };
}

abbrev steps : List (Step String)
steps =
    begins "cn" "token" "identity"
    ∷ advances
    ∷ gives_up 1
    ∷ finishes 1 served
    ∷ begins "cn" "token" "identity"
    ∷ []

run_live_example :
    (is_waiting
        (run "" steps unused).generation
        (run "" steps unused).slot.next_auth
        (run "" steps unused).slot.current
      ≡ false)
    ⊎ (is_some (lookup (run "" steps unused).slot.next_auth (run "" steps unused).slot.calls)
        ≡ true)
run_live_example =
    run_live "" steps unused (omega arith, omega arith)
      (record { keyed = omega arith; distinct = tt; stamped = tt; called = tt; live = inl refl })

abbrev dated : Dated String
dated = record { fetched_at = 9; document = "catalog" }

abbrev kept_metadata : Selection (Dated String)
kept_metadata = record { selected = some dated; source = cache; error_code = models_dev_transport }

abbrev pair : String → String → String
pair k m = k

abbrev same : String → String
same m = m

discover_error_example :
    (is_error (without_store same pair true served).error_code
      ≡ not (is_ready (without_store same pair true served).state))
    × (is_error (discover_configured same pair kept_metadata served).error_code
        ≡ not (is_ready (discover_configured same pair kept_metadata served).state))
    × (is_error
          (discover same pair
            (fetched dated)
            not_written
            missing
            (found dated)
            kept_metadata
            served).error_code
        ≡ not (
            is_ready
              (discover same pair
                (fetched dated)
                not_written
                missing
                (found dated)
                kept_metadata
                served).state))
discover_error_example =
    discover_error same pair (fetched dated) not_written missing (found dated) kept_metadata served
      true refl (refl, inl refl)

abbrev events : List (Metadata.Event String)
events =
    Metadata.turns true 1 ∷ Metadata.finishes true 1 (Metadata.fetched dated) none false true ∷ []

metadata_for_auth-IsReported_example :
    Metadata.AnswerReported
      (Metadata.turn true 2 (Metadata.run events (Metadata.new_model_runtime missing))).1
    × Metadata.ReturnReported
        (Metadata.finish_metadata true 2 Metadata.not_modified
          (some dated)
          false
          true
          (Metadata.run events (Metadata.new_model_runtime missing))).1
metadata_for_auth-IsReported_example =
    Metadata.metadata_for_auth-IsReported missing events true 2 Metadata.not_modified (some dated)
      false true

abbrev shared : Shared String
shared = record {
  slot = record {
    next_sequence = 3;
    committed_sequence = 1;
    committed_config = 7;
    active = 2 ∷ 3 ∷ [];
  };
  stored = "first";
}

abbrev saves : List (Save String)
saves =
    record { current = true; writes = true; sequence = 3; catalog = "third" }
    ∷ record { current = true; writes = true; sequence = 2; catalog = "second" }
    ∷ []

save_all_newest_example :
    (shared.slot.committed_sequence ≤ (save_all 7 saves shared).slot.committed_sequence)
    × AreUpTo 7 (save_all 7 saves shared).slot.committed_sequence saves
    × ((((save_all 7 saves shared).slot.committed_sequence ≡ shared.slot.committed_sequence)
          × ((save_all 7 saves shared).stored ≡ shared.stored))
        ⊎ IsOf 7
            (save_all 7 saves shared).slot.committed_sequence
            (save_all 7 saves shared).stored
            saves)
save_all_newest_example = save_all_newest 7 saves shared refl

finish_auth_call-snapshot_for_auth_id_example :
    (finish_auth_call "" 0 (config_key 0) 0 served unused.slot).1
    ≡ snapshot_for_auth_id "" 0 (finish_auth_call "" 0 (config_key 0) 0 served unused.slot).0
finish_auth_call-snapshot_for_auth_id_example =
    finish_auth_call-snapshot_for_auth_id "" 0 (config_key 0) 0 served unused.slot refl

refresh_executable_example :
    (is_executable
        (snapshot_for_auth_id "" 0
          (refresh_model_catalog_for_auth 0 served unused.slot none).0).state
      ≡ true)
    × (is_executable
          (snapshot_for_auth_id "" 0
            (refresh_model_catalog_for_auth 0 served unused.slot
              (some (unused.slot, not_started_snapshot "" 0))).0).state
        ≡ true)
    × (is_executable
          (refresh_model_catalog_for_auth 0 served unused.slot
            (some (unused.slot, not_started_snapshot "" 0))).1.state
        ≡ true)
unfolding snapshot_for_auth_id
refresh_executable_example =
    refresh_executable "" 0 served (not_started_snapshot "" 0) unused.slot unused.slot refl refl
