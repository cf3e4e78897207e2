-- ===== src/Overlay.antt =====
-- The operator's overlay of the model catalog, workbuddy/model_config.go (`applyModelOverlay`,
-- `applyModelOverlayForAdmin`, `removeModelID`): models are hidden, pinned to the front, or added.
pub mod Fronted
pub mod Served
mod Tests
use workbuddy_cpa_plugin.Base.{
  ℕ, suc, ◌+◌, Bool, true, false, not, ◌&&◌, ◌||◌, List, [], ◌∷◌, ◌++◌, Option, none, some, String,
  leb, string_eq, ◌==◌, if◌then◌else◌, is_some, map,
}
use workbuddy_cpa_plugin.Base.Lists.{any}
use workbuddy_cpa_plugin.Base.Text.{trim_space, is_empty}

-- `pluginapi.ModelInfo`: its ID and the rest of it.
pub record ModelInfo {ℓ} (R : Type ℓ) : Type ℓ where
  pub id : String
  pub rest : R

pub record ModelOverlay : Type 0 where
  pub hide : List String
  pub order : List String
  pub add : List String

-- Whether a trimmed ID is in a list of IDs.
unfoldable pub is_listed : String → List String → Bool
is_listed id [] = false
is_listed id (x ∷ xs) = let rest = is_listed id xs in if trim_space x == id then true else rest

-- `pinned[id]`, the first place of an ID in the order; without one, 0.
unfoldable pub place : String → List String → ℕ
place id [] = 0
place id (x ∷ xs) = let rest = place id xs in if trim_space x == id then 0 else suc rest

-- `removeModelID`.
unfoldable pub remove_model_id : List String → String → List String
remove_model_id [] id = []
remove_model_id (v ∷ vs) id =
    let rest = remove_model_id vs id in if trim_space v == id then rest else v ∷ rest

module _ {ℓ} {R : Type ℓ} where
  abbrev pub key : ModelInfo R → String
  key m = trim_space m.id

  unfoldable pub keep_if : (ModelInfo R → Bool) → List (ModelInfo R) → List (ModelInfo R)
  keep_if p [] = []
  keep_if p (m ∷ ms) = let rest = keep_if p ms in if p m then m ∷ rest else rest

  -- A stable insertion by a rank: behind those of the same rank that stand before it.
  unfoldable pub insert_ranked :
      (ModelInfo R → ℕ) → ModelInfo R → List (ModelInfo R) → List (ModelInfo R)
  insert_ranked rank m [] = m ∷ []
  insert_ranked rank m (n ∷ ns) =
      let rest = insert_ranked rank m ns in if leb (rank m) (rank n) then m ∷ n ∷ ns else n ∷ rest

  -- `sort.SliceStable`.
  unfoldable pub sort_ranked : (ModelInfo R → ℕ) → List (ModelInfo R) → List (ModelInfo R)
  sort_ranked rank [] = []
  sort_ranked rank (m ∷ ms) = insert_ranked rank m (sort_ranked rank ms)

  abbrev pub is_pinned : ModelOverlay → ModelInfo R → Bool
  is_pinned o m = not (is_listed (key m) o.hide) && is_listed (key m) o.order

  abbrev pub is_kept : ModelOverlay → ModelInfo R → Bool
  is_kept o m = not (is_listed (key m) o.hide) && not (is_listed (key m) o.order)

  -- The pinned models of a catalog, in their order.
  abbrev pub pinned_out : ModelOverlay → List (ModelInfo R) → List (ModelInfo R)
  pinned_out o base = sort_ranked (λ m. place (key m) o.order) (keep_if (is_pinned o) base)

  -- The models that the overlay adds; `fresh` is `defaultModelInfo` without a description.
  unfoldable pub added : (String → ModelInfo R) → List String → List String → List (ModelInfo R)
  added fresh hide [] = []
  added fresh hide (id ∷ ids) =
      let rest = added fresh hide ids in
      if is_listed (trim_space id) hide then rest else fresh (trim_space id) ∷ rest

  -- `applyModelOverlay`.
  unfoldable pub apply_model_overlay :
      (String → ModelInfo R) → List (ModelInfo R) → ModelOverlay → List (ModelInfo R)
  unfolding keep_if sort_ranked added
  apply_model_overlay fresh base o =
      pinned_out o base ++ (keep_if (is_kept o) base ++ added fresh o.hide o.add)

  abbrev pub has_key : String → List (ModelInfo R) → Bool
  has_key id ms = any (λ m. key m == id) ms

  -- The hidden models of the catalog that are not in the result yet, in its order.
  unfoldable pub hidden_rest :
      List String → List (ModelInfo R) → List (ModelInfo R) → List (ModelInfo R)
  hidden_rest hide out [] = []
  hidden_rest hide out (m ∷ ms) =
      if is_empty (key m) || not (is_listed (key m) hide) || has_key (key m) out
      then hidden_rest hide out ms
      else m ∷ hidden_rest hide (m ∷ out) ms

  -- `applyModelOverlayForAdmin`.
  unfoldable pub apply_model_overlay_for_admin :
      (String → ModelInfo R) → List (ModelInfo R) → ModelOverlay → List (ModelInfo R)
  unfolding apply_model_overlay keep_if hidden_rest
  apply_model_overlay_for_admin fresh base o =
      let visible = apply_model_overlay fresh base o in
      elim o.hide [
        | [] ↦ visible
        | h ∷ hs ↦
            let named = keep_if (λ m. not (is_empty (key m))) visible in
            named ++ hidden_rest o.hide named base
      ]
