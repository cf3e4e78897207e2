-- ===== src/Readiness/Outcome.antt =====
-- The snapshot that a discovery of `ensureForAuth` in workbuddy/model_readiness.go ends with. What the
-- fetches, the saves and the reads of the store give are the arguments; the models that a catalog
-- projects to are the functions `configured_content` and `content` of the section.
use workbuddy_cpa_plugin.Base.{
  ℕ, ◌≡◌, ◌⊎◌, inl, inr, refl, Bool, true, false, ◌&&◌, not, Option, none, some, if◌then◌else◌,
  arith, is_some, Option-cases, subst,
}
use workbuddy_cpa_plugin.Readiness.{
  ModelReadinessSnapshot, ModelReadinessState, ModelSnapshotSource, ModelErrorCode, no_error,
  workbuddy_transport, workbuddy_http, workbuddy_schema, models_dev_transport, models_dev_http,
  models_dev_schema, cache_read, cache_write, ready, stale, failed, fresh, cache, config, nowhere,
}

-- `modelSourceFailureKind`; `none` in its place is an error of another type.
pub data FailureKind : Type 0 where
  transport_failure http_failure schema_failure : FailureKind

abbrev pub model_source_error_code :
    Option FailureKind → ModelErrorCode → ModelErrorCode → ModelErrorCode → ModelErrorCode
model_source_error_code none transport http schema = schema
model_source_error_code (some transport_failure) transport http schema = transport
model_source_error_code (some http_failure) transport http schema = http
model_source_error_code (some schema_failure) transport http schema = schema

abbrev pub workbuddy_model_error_code : Option FailureKind → ModelErrorCode
workbuddy_model_error_code e =
    model_source_error_code e workbuddy_transport workbuddy_http workbuddy_schema

abbrev pub models_dev_model_error_code : Option FailureKind → ModelErrorCode
models_dev_model_error_code e =
    model_source_error_code e models_dev_transport models_dev_http models_dev_schema

abbrev pub is_error : ModelErrorCode → Bool
is_error no_error = false
is_error _ = true

abbrev pub is_fresh : ModelSnapshotSource → Bool
is_fresh fresh = true
is_fresh _ = false

abbrev pub is_ready : ModelReadinessState → Bool
is_ready ready = true
is_ready _ = false

-- `modelCatalogSelection` and `metadataSelection`: the flag `ok` says that there is a cache.
pub record Selection {ℓ} (D : Type ℓ) : Type ℓ where
  pub selected : Option D
  pub source : ModelSnapshotSource
  pub error_code : ModelErrorCode

-- `selectModelCatalog` and `selectMetadata`.
unfoldable pub select {ℓ} : {D : Type ℓ} → Option D → Option D → ModelErrorCode → Selection D
select (some new) _ failure = record { selected = some new; source = fresh; error_code = no_error }
select none (some old) failure = record {
  selected = some old;
  source = cache;
  error_code = failure;
}
select none none failure = record { selected = none; source = nowhere; error_code = failure }

-- A selection is fresh and free of errors, or neither.
abbrev pub IsReported {ℓ} : {D : Type ℓ} → Selection D → Type 0
IsReported s =
    (is_error s.error_code ≡ not (is_fresh s.source))
    × ((is_some s.selected ≡ true) ⊎ (is_fresh s.source ≡ false))

pub select-IsReported {ℓ} :
    {D : Type ℓ} (new old : Option D) (failure : ModelErrorCode)
    → is_error failure ≡ not (is_some new)
    → IsReported (select new old failure)
unfolding select
select-IsReported (some new) old failure h = (refl, inl refl)
select-IsReported none (some old) failure h = (h, inl refl)
select-IsReported none none failure h = (h, inr refl)

-- What a read of the store gives.
pub data Read {ℓ} (K : Type ℓ) : Type ℓ where
  found : K → Read K
  missing unreadable : Read K

-- `saveModelsForGeneration`: the discovery is outdated, a newer one has been saved, or this one has
-- or has not been written.
pub data Saved : Type 0 where
  outdated superseded written not_written : Saved

pub data Fetched {ℓ} (K : Type ℓ) : Type ℓ where
  not_fetched : Option FailureKind → Fetched K
  fetched : K → Fetched K

abbrev pub cached_of {ℓ} : {K : Type ℓ} → Read K → Option K
cached_of (found k) = some k
cached_of _ = none

abbrev pub is_unreadable {ℓ} : {K : Type ℓ} → Read K → Bool
is_unreadable unreadable = true
is_unreadable _ = false

abbrev pub read_failure {ℓ} : {K : Type ℓ} → Read K → ModelErrorCode → ModelErrorCode
read_failure r failure = if is_unreadable r then cache_read else failure

-- The catalog that a discovery selects; `before` and `after` are the reads of the store before the
-- fetch and after it. An outdated discovery selects none.
unfoldable pub select_catalog {ℓ} :
    {K : Type ℓ} → Fetched K → Saved → Read K → Read K → Option (Selection K)
select_catalog (not_fetched e) saved before after =
    some (select none (cached_of after) (read_failure after (workbuddy_model_error_code e)))
select_catalog (fetched k) outdated before after = none
select_catalog (fetched k) superseded before (found committed) =
    some (select (some committed) none no_error)
select_catalog (fetched k) superseded before _ = some (select none (cached_of before) cache_read)
select_catalog (fetched k) written before after = some (select (some k) (cached_of before) no_error)
select_catalog (fetched k) not_written before after =
    some (select none (cached_of after) (read_failure after (read_failure before cache_write)))

-- A catalog and a metadata document, with the time of their fetch.
pub record Dated {ℓ} (K : Type ℓ) : Type ℓ where
  pub fetched_at : ℕ
  pub document : K

abbrev pub date_of {ℓ} : {K : Type ℓ} → Option (Dated K) → ℕ → ℕ
date_of none t = t
date_of (some d) t = d.fetched_at

abbrev first_error : ModelErrorCode → ModelErrorCode → ModelErrorCode
first_error no_error b = b
first_error a b = a

abbrev AllReported {ℓ} : {K : Type ℓ} → Option (Selection K) → Type 0
AllReported none = Unit
AllReported (some k) = IsReported k

abbrev pub is_outdated : Saved → Bool
is_outdated outdated = true
is_outdated _ = false

workbuddy_model_error_code_error :
    (e : Option FailureKind) → is_error (workbuddy_model_error_code e) ≡ true
workbuddy_model_error_code_error none = refl
workbuddy_model_error_code_error (some transport_failure) = refl
workbuddy_model_error_code_error (some http_failure) = refl
workbuddy_model_error_code_error (some schema_failure) = refl

select_catalog-AllReported {ℓ} :
    {K : Type ℓ} (f : Fetched K) (saved : Saved) (before after : Read K)
    → AllReported (select_catalog f saved before after)
unfolding select_catalog select
select_catalog-AllReported (not_fetched e) saved before after =
    select-IsReported none (cached_of after) (read_failure after (workbuddy_model_error_code e))
      (ground (arith, workbuddy_model_error_code_error e))
select_catalog-AllReported (fetched k) outdated before after = tt
select_catalog-AllReported (fetched k) superseded before (found c) = (refl, inl refl)
select_catalog-AllReported (fetched k) superseded before missing =
    select-IsReported none (cached_of before) cache_read refl
select_catalog-AllReported (fetched k) superseded before unreadable =
    select-IsReported none (cached_of before) cache_read refl
select_catalog-AllReported (fetched k) written before after = (refl, inl refl)
select_catalog-AllReported (fetched k) not_written before after =
    select-IsReported none (cached_of after) (read_failure after (read_failure before cache_write))
      (ground arith)

select_catalog_some {ℓ} :
    {K : Type ℓ} (f : Fetched K) (saved : Saved) (before after : Read K)
    → is_outdated saved ≡ false
    → is_some (select_catalog f saved before after) ≡ true
unfolding select_catalog
select_catalog_some (not_fetched e) saved before after h = refl
select_catalog_some (fetched k) outdated before after h = cc
select_catalog_some (fetched k) superseded before (found c) h = refl
select_catalog_some (fetched k) superseded before missing h = refl
select_catalog_some (fetched k) superseded before unreadable h = refl
select_catalog_some (fetched k) written before after h = refl
select_catalog_some (fetched k) not_written before after h = refl

module _ {ℓ} {C K M : Type ℓ} (configured_content : M → C) (content : K → M → C) where
  -- The branch for a store that is not there.
  abbrev pub without_store : Bool → ModelReadinessSnapshot C → ModelReadinessSnapshot C
  without_store configured s = record s {
    model_source = if configured then config else s.model_source;
    state = failed;
    error_code = cache_read;
  }

  abbrev with_metadata :
      Selection (Dated M) → ModelErrorCode → ModelReadinessSnapshot C → ModelReadinessSnapshot C
  with_metadata m failure s = record s {
    metadata_source = m.source;
    metadata_fetched_at = date_of m.selected s.metadata_fetched_at;
    error_code = first_error failure m.error_code;
  }

  -- The end of both branches: both documents are there, and both are fresh or not.
  abbrev publishable : Bool → C → ModelReadinessSnapshot C → ModelReadinessSnapshot C
  publishable true c s = record s { content = c; state = ready; error_code = no_error }
  publishable false c s = record s { content = c; state = stale }

  -- The branch for a list of models in the configuration.
  unfoldable pub discover_configured :
      Selection (Dated M) → ModelReadinessSnapshot C → ModelReadinessSnapshot C
  discover_configured m s =
      let t = with_metadata m no_error (record s { model_source = config }) in
      elim m.selected [
        | none ↦ record t { state = failed }
        | some d ↦ publishable (is_fresh m.source) (configured_content d.document) t
      ]

  unfoldable pub discover_selected :
      Selection (Dated K)
      → Selection (Dated M)
      → ModelReadinessSnapshot C
      → ModelReadinessSnapshot C
  discover_selected k m s =
      let t = with_metadata m k.error_code (record s {
        model_source = k.source;
        models_fetched_at = date_of k.selected s.models_fetched_at;
      }) in
      elim k.selected [
        | none ↦ record t { state = failed }
        | some c ↦ elim m.selected [
          | none ↦ record t { state = failed }
          | some d ↦
              publishable (is_fresh k.source && is_fresh m.source) (content c.document d.document) t
        ]
      ]

  -- The branch for a catalog from upstream: an outdated discovery ends with the snapshot it began with.
  unfoldable pub discover :
      Fetched (Dated K)
      → Saved
      → Read (Dated K)
      → Read (Dated K)
      → Selection (Dated M)
      → ModelReadinessSnapshot C
      → ModelReadinessSnapshot C
  unfolding discover_selected select_catalog
  discover f saved before after m s = elim (select_catalog f saved before after) [
    | none ↦ s
    | some k ↦ discover_selected k m s
  ]

  discover_configured_reported :
      (m : Selection (Dated M)) (s : ModelReadinessSnapshot C)
      → IsReported m
      → is_error (discover_configured m s).error_code
        ≡ not (is_ready (discover_configured m s).state)
  unfolding discover_configured
  discover_configured_reported m s h = ground (arith, h)

  discover_selected_reported :
      (k : Selection (Dated K)) (m : Selection (Dated M)) (s : ModelReadinessSnapshot C)
      → IsReported k
      → IsReported m
      → is_error (discover_selected k m s).error_code
        ≡ not (is_ready (discover_selected k m s).state)
  unfolding discover_selected
  discover_selected_reported k m s hk hm = ground (arith, hk, hm)

  -- A discovery that is not outdated reports an error exactly when it does not end ready, on each of its
  -- three branches: without a store, with a list of models in the configuration, and with a catalog from
  -- upstream, whatever the fetch, the save and the reads of the store give. The metadata it is given
  -- must have an error unless they are fresh.
  pub discover_error :
      (f : Fetched (Dated K)) (saved : Saved) (before after : Read (Dated K))
      (m : Selection (Dated M)) (s : ModelReadinessSnapshot C) (configured : Bool)
      → is_outdated saved ≡ false
      → IsReported m
      → (is_error (without_store configured s).error_code
          ≡ not (is_ready (without_store configured s).state))
        × (is_error (discover_configured m s).error_code
            ≡ not (is_ready (discover_configured m s).state))
        × (is_error (discover f saved before after m s).error_code
            ≡ not (is_ready (discover f saved before after m s).state))
  unfolding discover
  discover_error f saved before after m s configured now h = (
    refl,
    discover_configured_reported m s h,
    elim (Option-cases (select_catalog f saved before after)) [
      | inl e ↦ let some_catalog = select_catalog_some f saved before after now in ground arith
      | inr (k, e) ↦
          rw (e, discover)
            (discover_selected_reported k m s
              (subst AllReported e (select_catalog-AllReported f saved before after)) h)
    ],
  )
