-- ===== src/Models/Context.antt =====
-- workbuddy/model_context.go: the context window that is advertised for a model. The two maps of the
-- catalog are keyed by the id in lower case; each method under the mutex is one step.
use workbuddy_cpa_plugin.Base.{
  ℕ, ◌≡◌, ◌↔◌, Bool, true, false, not, ◌&&◌, ◌||◌, List, [], ◌∷◌, ◌++◌, map, Option, none, some,
  String, Eq, ◌==◌, nat_eq, string_eq, any, arith, if◌then◌else◌, ltb, leb, is_some,
}
use workbuddy_cpa_plugin.Base.Int.{ℤ, pos, negsuc, is_pos}
use workbuddy_cpa_plugin.Base.Text.{codes, trim_space, to_lower, runes_eq, is_empty}
use workbuddy_cpa_plugin.Base.Maps.{lookup, insert}

abbrev pub max_context_window_value : ℕ
max_context_window_value = 100_000_000

pub runes_eq_iff : (a b : List ℕ) → (runes_eq a b ≡ true) ↔ (a ≡ b)
unfolding runes_eq
runes_eq_iff [] [] = ground arith
runes_eq_iff [] (d ∷ b) = ground arith
runes_eq_iff (c ∷ a) [] = ground arith
runes_eq_iff (c ∷ a) (d ∷ b) = ground (arith, runes_eq_iff a b)

instance abbrev pub runes : Eq (List ℕ)
runes = record { beq = runes_eq; beq_iff = runes_eq_iff }

-- The catalog entry of a model, with nil for an absent number.
pub record ModelFacts : Type 0 where
  pub id : String
  pub default_context_length : Option ℤ
  pub supported_context_lengths : List ℤ
  pub max_allowed_size : Option ℤ
  pub max_input_tokens : Option ℤ

pub record ContextMetadata : Type 0 where
  pub default_length : ℤ
  pub supported_lengths : List ℤ
  pub max_allowed_size : ℤ
  pub max_input_tokens : ℤ

pub record Catalog : Type 0 where
  pub by_model : List (List ℕ × ContextMetadata)
  pub base_length : List (List ℕ × ℤ)

-- `derefInt64`.
abbrev pub deref_int64 : Option ℤ → ℤ
deref_int64 none = pos 0
deref_int64 (some v) = v

abbrev pub cons_to : ℕ → Option (List ℕ) → Option (List ℕ)
cons_to n none = none
cons_to n (some out) = some (n ∷ out)

-- The loop of `normalizeContextLengths`: `none` for a value out of range or a repeated one.
unfoldable pub collect : List ℕ → List ℤ → Option (List ℕ)
collect seen [] = some []
collect seen (negsuc n ∷ values) = none
collect seen (pos n ∷ values) =
    let rest = collect (n ∷ seen) values in
    if leb n 0 || ltb max_context_window_value n
    then none
    else if any (λ m. m == n) seen
    then none
    else cons_to n rest

unfoldable pub insert_sorted : ℕ → List ℕ → List ℕ
insert_sorted n [] = n ∷ []
insert_sorted n (m ∷ ms) = if leb n m then n ∷ m ∷ ms else m ∷ insert_sorted n ms

-- `sort.Slice` in ascending order.
unfoldable pub sorted : List ℕ → List ℕ
unfolding insert_sorted
sorted [] = []
sorted (n ∷ ns) = insert_sorted n (sorted ns)

abbrev pub sorted_all : Option (List ℕ) → Option (List ℕ)
sorted_all none = none
sorted_all (some out) = some (sorted out)

-- `normalizeContextLengths`.
unfoldable pub normalize_context_lengths : List ℤ → Option (List ℕ)
unfolding collect
normalize_context_lengths values = sorted_all (collect [] values)

abbrev is_negative : ℤ → Bool
is_negative (pos n) = false
is_negative (negsuc n) = true

abbrev exceeds : ℤ → Bool
exceeds (pos n) = ltb max_context_window_value n
exceeds (negsuc n) = false

abbrev pub with_lengths : ContextMetadata → Option (List ℕ) → Option ContextMetadata
with_lengths meta none = none
with_lengths meta (some lengths) = some (record meta { supported_lengths = map pos lengths })

-- Whether the default has to be added to the lengths that are listed.
abbrev pub is_unlisted : ℤ → List ℕ → Bool
is_unlisted (pos d) (n ∷ ns) = ltb 0 d && not (any (λ m. m == d) (n ∷ ns))
is_unlisted _ _ = false

-- `validateContextMetadata`.
unfoldable pub validate_context_metadata : ContextMetadata → Option ContextMetadata
validate_context_metadata meta =
    if is_negative meta.default_length
      || is_negative meta.max_allowed_size
      || is_negative meta.max_input_tokens
    then none
    else if exceeds meta.default_length
        || exceeds meta.max_allowed_size
        || exceeds meta.max_input_tokens
    then none
    else elim (normalize_context_lengths meta.supported_lengths) [
      | none ↦ none
      | some lengths ↦ with_lengths meta (
          if is_unlisted meta.default_length lengths
          then normalize_context_lengths (map pos lengths ++ meta.default_length ∷ [])
          else some lengths)
    ]

-- Where an advertised length comes from.
pub data LengthSource : Type 0 where
  override upstream modelsdev nowhere : LengthSource

abbrev pub first_positive : List ℤ → ℤ
first_positive [] = pos 0
first_positive (v ∷ vs) = if is_pos v then v else first_positive vs

module _ (unicode : ℕ → ℕ) where
  abbrev pub key_of : String → List ℕ
  key_of id = to_lower unicode (codes (trim_space id))

  -- `recordBaseContextLength`.
  unfoldable pub record_base_context_length : String → ℤ → Catalog → Catalog
  record_base_context_length id value c =
      if is_empty (trim_space id) || not (is_pos value)
      then c
      else if is_some (lookup (key_of id) c.base_length)
      then c
      else record c { base_length = insert (key_of id) value c.base_length }

  -- `baseContextLengthForModel`.
  unfoldable pub base_context_length_for_model : String → Catalog → Option ℤ
  base_context_length_for_model id c = lookup (key_of id) c.base_length

  abbrev facts_metadata : ModelFacts → ContextMetadata
  facts_metadata model = record {
    default_length = deref_int64 model.default_context_length;
    supported_lengths = model.supported_context_lengths;
    max_allowed_size = deref_int64 model.max_allowed_size;
    max_input_tokens = deref_int64 model.max_input_tokens;
  }

  abbrev record_facts : ModelFacts → Catalog → Catalog
  record_facts model c =
      if is_empty (trim_space model.id)
      then c
      else elim (validate_context_metadata (facts_metadata model)) [
        | none ↦ c
        | some meta ↦ record c { by_model = insert (key_of model.id) meta c.by_model }
      ]

  -- `recordModelContextFacts`.
  unfoldable pub record_model_context_facts : List ModelFacts → Catalog → Catalog
  record_model_context_facts [] c = c
  record_model_context_facts (model ∷ models) c =
      record_model_context_facts models (record_facts model c)

  -- `contextMetadataForModel`.
  unfoldable pub context_metadata_for_model : String → Catalog → Option ContextMetadata
  context_metadata_for_model id c = lookup (key_of id) c.by_model

  -- `contextOverrideForModel`, given the configured overrides.
  unfoldable pub context_override_for_model : String → List (String × ℤ) → Option ℤ
  context_override_for_model id config = elim (lookup (trim_space id) config) [
    | none ↦ none
    | some v ↦ if is_pos v then some v else none
  ]

  -- `effectiveModelContext`: the length, its source and the selectable lengths.
  unfoldable pub effective_model_context :
      Catalog → List (String × ℤ) → String → ℤ → ℤ × LengthSource × List ℤ
  effective_model_context c config id fallback =
      let meta = context_metadata_for_model id c in
      let listed : List ℤ = elim meta [ none ↦ [] | some m ↦ m.supported_lengths ] in
      elim (context_override_for_model id config) [
        | some v ↦ (v, override, listed)
        | none ↦ elim meta [
          | some m ↦
              let candidate : ℤ =
                first_positive
                  (fallback ∷ m.max_input_tokens ∷ m.max_allowed_size ∷ m.default_length ∷ []) in
              if is_pos candidate then (candidate, upstream, listed) else (pos 0, nowhere, listed)
          | none ↦ if is_pos fallback then (fallback, modelsdev, []) else (pos 0, nowhere, [])
        ]
      ]
