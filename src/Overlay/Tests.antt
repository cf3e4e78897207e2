-- ===== src/Overlay/Tests.antt =====
-- The theorem on overlays at a concrete catalog.
use workbuddy_cpa_plugin.Base.{ℕ, ◌+◌, ◌≡◌, refl, List, [], ◌∷◌, String, if◌then◌else◌}
use workbuddy_cpa_plugin.Base.Text.{trim_space}
use workbuddy_cpa_plugin.Overlay.{ModelInfo, ModelOverlay, is_listed, key, apply_model_overlay}
use workbuddy_cpa_plugin.Overlay.Fronted.{IsFronted}
use workbuddy_cpa_plugin.Overlay.Served.{count, count_ids, apply_model_overlay-count}

abbrev model : String → ModelInfo ℕ
model id = record { id = id; rest = 0 }

abbrev catalog : List (ModelInfo ℕ)
catalog = model "a" ∷ model "b" ∷ model "c" ∷ []

abbrev overlay : ModelOverlay
overlay = record { hide = "b" ∷ []; order = "c" ∷ []; add = "d" ∷ [] }

named : (s : String) → key (model s) ≡ trim_space s
named s = refl

apply_model_overlay-count_example :
    (count "c" (apply_model_overlay model catalog overlay)
      ≡ (if is_listed "c" overlay.hide then 0 else count "c" catalog + count_ids "c" overlay.add))
    × IsFronted overlay (apply_model_overlay model catalog overlay)
apply_model_overlay-count_example = apply_model_overlay-count model catalog overlay "c" named
