-- ===== src/Models/Classes.antt =====
-- workbuddy/model_class.go: what a catalog entry can be used for, by the shape of its id.
use workbuddy_cpa_plugin.Base.{ℕ, Bool, true, false, List, [], ◌∷◌, String, any, if◌then◌else◌}
use workbuddy_cpa_plugin.Base.Text.{
  codes, trim_space, to_lower, has_prefix, contains, is_suffix, runes_eq,
}

pub data ModelKind : Type 0 where
  chat completion inline image unknown : ModelKind

abbrev pub non_chat_model_ids : List String
non_chat_model_ids = "lite" ∷ "default-model" ∷ "primary-model" ∷ []

abbrev pub non_chat_model_hints : List String
non_chat_model_hints = "-3b" ∷ "-7b-dense" ∷ []

abbrev pub image_model_suffixes : List String
image_model_suffixes = "-image-alpha" ∷ "-image-alpha-edit" ∷ []

abbrev is_blank : List ℕ → Bool
is_blank [] = true
is_blank (c ∷ s) = false

module _ (unicode : ℕ → ℕ) where
  abbrev lowered : String → List ℕ
  lowered id = to_lower unicode (codes (trim_space id))

  -- `isPresetModelID`.
  unfoldable pub is_preset_model_id : String → Bool
  is_preset_model_id id =
      let s = lowered id in if is_blank s then false else is_suffix s (codes "-model")

  -- `classifyModelID`, on the lower-case id.
  unfoldable pub classify_lowered : List ℕ → ModelKind
  classify_lowered s =
      if is_blank s
      then unknown
      else if any (λ i. runes_eq s (codes i)) non_chat_model_ids
      then unknown
      else if any (λ h. contains s (codes h)) non_chat_model_hints
      then unknown
      else if any (λ x. is_suffix s (codes x)) image_model_suffixes
      then image
      else if has_prefix s (codes "default-")
      then unknown
      else if has_prefix s (codes "completion-")
      then completion
      else if is_suffix s (codes "-taco-completion")
      then completion
      else if has_prefix s (codes "codewise-")
      then inline
      else chat

  unfoldable pub classify_model_id : String → ModelKind
  unfolding classify_lowered
  classify_model_id id = classify_lowered (lowered id)

-- `modelKindChatUsable`.
abbrev pub model_kind_chat_usable : ModelKind → Bool
model_kind_chat_usable chat = true
model_kind_chat_usable inline = true
model_kind_chat_usable _ = false

-- `modelKindLabel`.
abbrev pub model_kind_label : ModelKind → String
model_kind_label chat = "chat"
model_kind_label completion = "文本补全"
model_kind_label inline = "IDE 内联"
model_kind_label image = "图像"
model_kind_label unknown = "不可用"
