-- ===== src/Credits/Tests.antt =====
-- The theorems on multipliers at concrete tables.
use workbuddy_cpa_plugin.Base.{◌≡◌, refl, inl, [], ◌∷◌, arith, string_eq}
use workbuddy_cpa_plugin.Base.Text.{trim_space}
use workbuddy_cpa_plugin.Base.Maps.{lookup}
use workbuddy_cpa_plugin.Credits.{
  Credits, model_credits, set_model_credits_override, record_model_credits, effective, value_of,
  override_source, model_credits_precedence,
}

abbrev reported : Credits
reported = record { upstream = ("glm", "x0.29") ∷ []; override = [] }

model_credits_precedence_example :
    (model_credits "glm" (set_model_credits_override "glm" "x1" reported) ≡ ("x1", override_source))
    × (model_credits "glm" (set_model_credits_override "glm" "" reported)
        ≡ effective "" (value_of (lookup (trim_space "glm") reported.upstream)))
    × (model_credits "glm" (record_model_credits "glm" "x1" reported)
        ≡ effective (value_of (lookup (trim_space "glm") reported.override)) "x1")
    × (model_credits "glm" (record_model_credits "glm" "" reported)
        ≡ effective (value_of (lookup (trim_space "glm") reported.override)) "")
unfolding trim_space lookup
model_credits_precedence_example =
    model_credits_precedence "glm" "x1" reported refl refl (refl, tt) tt (inl (omega arith))
      (inl (omega arith))
