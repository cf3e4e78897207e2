-- ===== src/Credits.antt =====
-- workbuddy/model_credits.go: the multiplier of each model, as upstream reports it and as the operator
-- pins it. `Sorted` is the list for the panel. The rate that `strconv.ParseFloat` reads from a multiplier
-- is not modelled.
pub mod Sorted
mod Tests
use workbuddy_cpa_plugin.Base.{
  ℕ, ◌+◌, ◌≤◌, ◌≡◌, ◌⊎◌, inl, inr, refl, ◌∙◌, Bool, true, false, not, ◌&&◌, ◌||◌, List, [], ◌∷◌,
  Option, none, some, String, leb, string_eq, ◌==◌, if◌then◌else◌, is_some, length, arith,
  Bool-cases, Option-cases,
}
use workbuddy_cpa_plugin.Base.Text.{trim_space, trim_space_idem, is_empty}
use workbuddy_cpa_plugin.Base.Maps.{
  lookup, insert, delete, Distinct, length-insert, length-delete, Distinct-insert, Distinct-keep,
  lookup-insert, lookup-delete,
}

-- `modelCreditsMaxEntries`.
abbrev pub model_credits_max_entries : ℕ
model_credits_max_entries = 4096

-- `upstreamCredits` and `overrideCredits`.
pub record Credits : Type 0 where
  pub upstream : List (String × String)
  pub override : List (String × String)

abbrev pub value_of : Option String → String
value_of none = ""
value_of (some v) = v

-- The body that `recordModelCredits` and `setModelCreditsOverride` share, on their table.
unfoldable pub put : String → String → List (String × String) → List (String × String)
put id credits table =
    if is_empty credits
    then delete id table
    else if leb model_credits_max_entries (length table) && is_empty (value_of (lookup id table))
    then table
    else insert id credits table

-- `recordModelCredits`.
unfoldable pub record_model_credits : String → String → Credits → Credits
unfolding put
record_model_credits id credits s =
    if is_empty (trim_space id)
    then s
    else record s { upstream = put (trim_space id) credits s.upstream }

-- `setModelCreditsOverride`.
unfoldable pub set_model_credits_override : String → String → Credits → Credits
unfolding put
set_model_credits_override id credits s =
    if is_empty (trim_space id)
    then s
    else record s { override = put (trim_space id) credits s.override }

unfoldable pub configured_entries : List (String × String) → List (String × String)
configured_entries [] = []
configured_entries ((id, value) ∷ rest) =
    let out = configured_entries rest in if is_empty value then out else insert id value out

-- `syncConfiguredCredits`.
unfoldable pub sync_configured_credits : List (String × String) → Credits → Credits
unfolding configured_entries
sync_configured_credits configured s = record s { override = configured_entries configured }

pub data CreditsSource : Type 0 where
  override_source upstream_source no_source : CreditsSource

-- What the two tables hold for a model.
unfoldable pub effective : String → String → String × CreditsSource
effective pinned reported =
    if not (is_empty pinned)
    then (pinned, override_source)
    else if not (is_empty reported)
    then (reported, upstream_source)
    else ("", no_source)

-- `modelCredits`.
unfoldable pub model_credits : String → Credits → String × CreditsSource
unfolding effective
model_credits id s =
    if is_empty (trim_space id)
    then ("", no_source)
    else effective (value_of (lookup (trim_space id) s.override))
        (value_of (lookup (trim_space id) s.upstream))

is_empty_text : (s : String) → (is_empty s ≡ false) ⊎ (s ≡ "")
is_empty_text String.[] = inr refl
is_empty_text (String.◌∷◌ c s) = inl refl

-- What a table holds after `put`: the new value, unless there is no room for it.
lookup-put :
    (id j credits : String) (table : List (String × String))
    → Distinct table
    → (length table ≤ 4095) ⊎ (is_empty (value_of (lookup id table)) ≡ false)
    → value_of (lookup j (put id credits table))
      ≡ (if id == j then credits else value_of (lookup j table))
unfolding put
lookup-put id j credits table d room = ground (
  arith,
  lookup-insert id j credits table,
  lookup-delete id j table d,
  string_eq.beq_iff id j,
  string_eq.beq_iff j id,
  is_empty_text credits,
)

missing_value : (o : Option String) → (is_some o ≡ true) ⊎ (is_empty (value_of o) ≡ true)
missing_value none = inr refl
missing_value (some v) = inl refl

length-put :
    (id credits : String) (table : List (String × String))
    → Distinct table
    → length table ≤ model_credits_max_entries
    → length (put id credits table) ≤ model_credits_max_entries
unfolding put
length-put id credits table d le = ground (
  arith,
  missing_value (lookup id table),
  length-insert id credits table,
  length-delete id table d,
)

-- A table has room for a model that it has, or while it is not full.
abbrev pub HasRoom : String → List (String × String) → Type 0
HasRoom id table =
    (length table ≤ 4095) ⊎ (is_empty (value_of (lookup (trim_space id) table)) ≡ false)

pub model_credits_precedence :
    (id credits : String) (s : Credits)
    → is_empty (trim_space id) ≡ false
    → is_empty credits ≡ false
    → Distinct s.upstream
    → Distinct s.override
    → HasRoom id s.upstream
    → HasRoom id s.override
    → (model_credits id (set_model_credits_override id credits s) ≡ (credits, override_source))
      × (model_credits id (set_model_credits_override id "" s)
          ≡ effective "" (value_of (lookup (trim_space id) s.upstream)))
      × (model_credits id (record_model_credits id credits s)
          ≡ effective (value_of (lookup (trim_space id) s.override)) credits)
      × (model_credits id (record_model_credits id "" s)
          ≡ effective (value_of (lookup (trim_space id) s.override)) "")
unfolding model_credits record_model_credits set_model_credits_override
model_credits_precedence id credits s named full du dp ru rp =
    let k = trim_space id in
    let same = (string_eq.beq_iff k k).1 refl in
    (
      rw (named, lookup-put k k credits s.override dp rp, same, full) refl,
      rw (named, lookup-put k k "" s.override dp rp, same) refl,
      rw (named, lookup-put k k credits s.upstream du ru, same) refl,
      rw (named, lookup-put k k "" s.upstream du ru, same) refl,
    )
