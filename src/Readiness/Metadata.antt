-- ===== src/Readiness/Metadata.antt =====
-- The shared models.dev metadata of workbuddy/model_readiness.go (`metadataForAuth`, `newModelRuntime`,
-- `invalidateModelCaches`, `metadataStatus`): one fetch is at work at a time, and its result is kept.
use workbuddy_cpa_plugin.Base.{
  ℕ, ◌≡◌, ◌⊎◌, inl, inr, refl, Bool, true, false, not, List, [], ◌∷◌, Option, none, some,
  if◌then◌else◌, ◌==◌, nat_eq, arith, is_some, Bool-cases, Option-cases,
}
use workbuddy_cpa_plugin.Readiness.{
  ModelErrorCode, no_error, models_dev_schema, cache_read, cache_write, nowhere,
}
use workbuddy_cpa_plugin.Readiness.Outcome.{
  FailureKind, transport_failure, http_failure, schema_failure, models_dev_model_error_code,
  Selection, select, IsReported, select-IsReported, Read, found, missing, unreadable, is_error,
  Dated,
}

-- `fetchModelsDevMetadata`.
pub data MetadataFetch {ℓ} (M : Type ℓ) : Type ℓ where
  not_fetched : Option FailureKind → MetadataFetch M
  not_modified : MetadataFetch M
  fetched : Dated M → MetadataFetch M

-- `metadataResult`, `metadataCache` and `metadataCall`, the call by its number.
pub record MetadataState {ℓ} (M : Type ℓ) : Type ℓ where
  pub result : Option (Selection (Dated M))
  pub kept : Option (Dated M)
  pub call : Option ℕ

-- What a turn of the loop in `metadataForAuth` does.
pub data Turn {ℓ} (M : Type ℓ) : Type ℓ where
  outdated : Turn M
  answers : Selection (Dated M) → Turn M
  waits : ℕ → Turn M
  starts : Option (Dated M) → Bool → Turn M

abbrev is_cache_read : ModelErrorCode → Bool
is_cache_read cache_read = true
is_cache_read _ = false

abbrev drop_call : ℕ → Option ℕ → Option ℕ
drop_call n none = none
drop_call n (some c) = if c == n then none else some c

pub data Event {ℓ} (M : Type ℓ) : Type ℓ where
  turns : Bool → ℕ → Event M
  finishes : Bool → ℕ → MetadataFetch M → Option (Dated M) → Bool → Bool → Event M
  invalidates : Event M

module _ {ℓ} {M : Type ℓ} where
  -- `newModelRuntime`.
  abbrev pub new_model_runtime : Read (Dated M) → MetadataState M
  new_model_runtime (found d) = record { result = none; kept = some d; call = none }
  new_model_runtime missing = record { result = none; kept = none; call = none }
  new_model_runtime unreadable = record {
    result = some (record { selected = none; source = nowhere; error_code = cache_read });
    kept = none;
    call = none;
  }

  abbrev usable : Option (Selection (Dated M)) → Option (Selection (Dated M))
  usable none = none
  usable (some r) = if is_some r.selected then some r else none

  abbrev pub cache_read_failed : Option (Selection (Dated M)) → Bool
  cache_read_failed none = false
  cache_read_failed (some r) = is_cache_read r.error_code

  -- One turn of the loop, for a call that would get the number `n`.
  unfoldable pub turn : Bool → ℕ → MetadataState M → MetadataState M × Turn M
  turn current n s = if not current then (s, outdated) else elim (usable s.result) [
    | some r ↦ (s, answers r)
    | none ↦ elim s.call [
      | some active ↦ (s, waits active)
      | none ↦ (record s { call = some n }, starts s.kept (cache_read_failed s.result))
    ]
  ]

  -- What the fetch gives, and the failure; `saved` is whether the save of a new document succeeds.
  unfoldable pub fresh_of :
      MetadataFetch M → Option (Dated M) → Bool → Bool → Option (Dated M) × ModelErrorCode
  fresh_of (not_fetched e) cached failed saved = (none, models_dev_model_error_code e)
  fresh_of not_modified none failed saved = (none, models_dev_schema)
  fresh_of not_modified (some d) failed saved = (some d, no_error)
  fresh_of (fetched d) cached failed saved =
      if saved then (some d, no_error) else (none, if failed then cache_read else cache_write)

  abbrev settle : Selection (Dated M) → Bool → MetadataState M → MetadataState M
  settle r failed s = elim r.selected [
    | some d ↦ record s { result = some r; kept = some d }
    | none ↦ record s {
      result =
          if failed
          then some (record { selected = none; source = nowhere; error_code = cache_read })
          else none;
    }
  ]

  -- The end of a fetch: `none` when its caller is outdated.
  unfoldable pub finish_metadata :
      Bool
      → ℕ
      → MetadataFetch M
      → Option (Dated M)
      → Bool
      → Bool
      → MetadataState M
      → MetadataState M × Option (Selection (Dated M))
  unfolding fresh_of
  finish_metadata current n fetch cached failed saved s =
      if not current
      then (record s { call = drop_call n s.call }, none)
      else let f = fresh_of fetch cached failed saved in
        let r = select f.0 cached f.1 in
        (record (settle r failed s) { call = drop_call n s.call }, some r)

  -- The part of `invalidateModelCaches` that concerns metadata.
  abbrev pub invalidate : MetadataState M → MetadataState M
  invalidate s = record s { result = none; call = none }

  unfoldable pub step : Event M → MetadataState M → MetadataState M
  unfolding turn finish_metadata
  step (turns current n) s = (turn current n s).0
  step (finishes current n fetch cached failed saved) s =
      (finish_metadata current n fetch cached failed saved s).0
  step invalidates s = invalidate s

  unfoldable pub run : List (Event M) → MetadataState M → MetadataState M
  run [] s = s
  run (x ∷ xs) s = run xs (step x s)

  -- The kept result is reported, and a usable one has its document kept.
  abbrev Kept : Option (Selection (Dated M)) → Option (Dated M) → Type 0
  Kept none kept = Unit
  Kept (some r) kept = IsReported r × ((is_some r.selected ≡ false) ⊎ (is_some kept ≡ true))

  abbrev pub IsKept : MetadataState M → Type 0
  IsKept s = Kept s.result s.kept

  fresh_of_error :
      (fetch : MetadataFetch M) (cached : Option (Dated M)) (failed saved : Bool)
      → is_error (fresh_of fetch cached failed saved).1
        ≡ not (is_some (fresh_of fetch cached failed saved).0)
  unfolding fresh_of
  fresh_of_error (not_fetched none) cached failed saved = refl
  fresh_of_error (not_fetched (some transport_failure)) cached failed saved = refl
  fresh_of_error (not_fetched (some http_failure)) cached failed saved = refl
  fresh_of_error (not_fetched (some schema_failure)) cached failed saved = refl
  fresh_of_error not_modified none failed saved = refl
  fresh_of_error not_modified (some d) failed saved = refl
  fresh_of_error (fetched d) cached failed true = refl
  fresh_of_error (fetched d) cached true false = refl
  fresh_of_error (fetched d) cached false false = refl

  settle-Kept :
      (r : Selection (Dated M)) (failed : Bool) (s : MetadataState M)
      → IsReported r
      → Kept (settle r failed s).result (settle r failed s).kept
  settle-Kept r failed s h = elim (Option-cases r.selected) [
    | inl e ↦ elim (Bool-cases failed) [
      | inl f ↦ rw (e, f) ((refl, inr refl), inl refl)
      | inr f ↦ rw (e, f) tt
    ]
    | inr (d, e) ↦ rw e ((h.0, inl refl), inr refl)
  ]

  turn_result :
      (current : Bool) (n : ℕ) (s : MetadataState M)
      → ((turn current n s).0.result ≡ s.result) × ((turn current n s).0.kept ≡ s.kept)
  unfolding turn
  turn_result current n s = ground arith

  finish-IsKept :
      (current : Bool) (n : ℕ) (fetch : MetadataFetch M) (cached : Option (Dated M))
      (failed saved : Bool) (s : MetadataState M)
      → IsKept s
      → IsKept (finish_metadata current n fetch cached failed saved s).0
  unfolding finish_metadata
  finish-IsKept false n fetch cached failed saved s h = h
  finish-IsKept true n fetch cached failed saved s h =
      let f = fresh_of fetch cached failed saved in
      settle-Kept (select f.0 cached f.1) failed s
        (select-IsReported f.0 cached f.1 (fresh_of_error fetch cached failed saved))

  step-IsKept : (x : Event M) (s : MetadataState M) → IsKept s → IsKept (step x s)
  unfolding step
  step-IsKept (turns current n) s h = let t = turn_result current n s in rw (t.0, t.1) h
  step-IsKept (finishes current n fetch cached failed saved) s h =
      finish-IsKept current n fetch cached failed saved s h
  step-IsKept invalidates s h = tt

  run-IsKept : (xs : List (Event M)) (s : MetadataState M) → IsKept s → IsKept (run xs s)
  unfolding run
  run-IsKept [] s h = h
  run-IsKept (x ∷ xs) s h = run-IsKept xs (step x s) (step-IsKept x s h)

  new_model_runtime-IsKept : (r : Read (Dated M)) → IsKept (new_model_runtime r)
  new_model_runtime-IsKept (found d) = tt
  new_model_runtime-IsKept missing = tt
  new_model_runtime-IsKept unreadable = ((refl, inr refl), inl refl)

  abbrev pub AnswerReported : Turn M → Type 0
  AnswerReported (answers r) = IsReported r × (is_some r.selected ≡ true)
  AnswerReported _ = Unit

  abbrev pub ReturnReported : Option (Selection (Dated M)) → Type 0
  ReturnReported none = Unit
  ReturnReported (some r) = IsReported r

  turn-Kept :
      (n : ℕ) (result : Option (Selection (Dated M))) (kept : Option (Dated M)) (call : Option ℕ)
      → Kept result kept
      → AnswerReported (turn true n (record { result = result; kept = kept; call = call })).1
  unfolding turn
  turn-Kept n none kept none h = tt
  turn-Kept n none kept (some c) h = tt
  turn-Kept n (some r) kept call h = elim (Option-cases r.selected) [
    | inl e ↦ elim (Option-cases call) [ inl c ↦ rw (e, c) tt | inr (j, c) ↦ rw (e, c) tt ]
    | inr (d, e) ↦ rw e ((h.0.0, inl refl), refl)
  ]

  turn-AnswerReported :
      (current : Bool) (n : ℕ) (s : MetadataState M)
      → IsKept s
      → AnswerReported (turn current n s).1
  unfolding turn
  turn-AnswerReported false n s h = tt
  turn-AnswerReported true n s h = turn-Kept n s.result s.kept s.call h

  finish-ReturnReported :
      (current : Bool) (n : ℕ) (fetch : MetadataFetch M) (cached : Option (Dated M))
      (failed saved : Bool) (s : MetadataState M)
      → ReturnReported (finish_metadata current n fetch cached failed saved s).1
  unfolding finish_metadata
  finish-ReturnReported false n fetch cached failed saved s = tt
  finish-ReturnReported true n fetch cached failed saved s =
      let f = fresh_of fetch cached failed saved in
      select-IsReported f.0 cached f.1 (fresh_of_error fetch cached failed saved)

  -- After any turns, ends of fetches and invalidations from a start with whatever the store held, the
  -- metadata that `metadataForAuth` hands out - kept from an earlier fetch, or selected at the end of its
  -- own - carry an error exactly when they are not fresh; what it hands out without a fetch is always
  -- usable.
  pub metadata_for_auth-IsReported :
      (stored : Read (Dated M)) (events : List (Event M)) (current : Bool) (n : ℕ)
      (fetch : MetadataFetch M) (cached : Option (Dated M)) (failed saved : Bool)
      → AnswerReported (turn current n (run events (new_model_runtime stored))).1
        × ReturnReported
            (finish_metadata current n fetch cached failed saved
              (run events (new_model_runtime stored))).1
  metadata_for_auth-IsReported stored events current n fetch cached failed saved = (
    turn-AnswerReported current n (run events (new_model_runtime stored))
        (run-IsKept events (new_model_runtime stored) (new_model_runtime-IsKept stored)),
    finish-ReturnReported current n fetch cached failed saved
        (run events (new_model_runtime stored)),
  )
