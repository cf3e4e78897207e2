-- ===== src/Payload/Tools.antt =====
-- What the normalization of `tool_choice` leaves.
use workbuddy_cpa_plugin.Base.{
  ℕ, ◌≡◌, refl, ◌⊎◌, inl, inr, Bool, true, false, Option, none, some, String, arith, if◌then◌else◌,
  ◌==◌, string_eq, Option-cases, if_elim,
}
use workbuddy_cpa_plugin.Json.{
  Json, null, bool, number, string, array, object, Fields, end, field, get, put, remove,
}
use workbuddy_cpa_plugin.Payload.{
  normalize_choice, normalize_tools_in_place, suppress_tools, function_name, text_of,
}
use workbuddy_cpa_plugin.Base.Text.{trim_space, codes, to_lower, runes_eq}

pub get-put :
    (k j : String) (v : Json) (fs : Fields)
    → get j (put k v fs) ≡ (if k == j then some v else get j fs)
unfolding get put
get-put k j v end = refl
get-put k j v (field i w fs) =
    ground
      (arith, get-put k j v fs, string_eq.beq_iff i k, string_eq.beq_iff k j, string_eq.beq_iff i j)

pub get-remove :
    (k j : String) (fs : Fields) → get j (remove k fs) ≡ (if k == j then none else get j fs)
unfolding get remove
get-remove k j end = ground arith
get-remove k j (field i w fs) =
    ground (
      arith,
      get-remove k j fs,
      string_eq.beq_iff i k,
      string_eq.beq_iff k j,
      string_eq.beq_iff i j,
    )

-- No choice, or a text.
abbrev pub IsText : Option Json → Type 0
IsText o = (o ≡ none) ⊎ ((s : String) × (o ≡ some (string s)))

-- Another field than the three that the normalization may change.
abbrev pub is_other : String → Bool
is_other k =
    if k == "tool_choice"
    then false
    else if k == "tools"
    then false
    else if k == "functions"
    then false
    else true

module _ (unicode : ℕ → ℕ) (equal_fold : String → String → Bool) where
  suppressed-none :
      (obj : Fields) → get "tool_choice" (suppress_tools (remove "tool_choice" obj)) ≡ none
  suppressed-none obj = ground (
    arith,
    get-remove "tool_choice" "tool_choice" obj,
    get-remove "tools" "tool_choice" (remove "tool_choice" obj),
    get-remove "functions" "tool_choice" (remove "tools" (remove "tool_choice" obj)),
  )

  forced :
      (name : String) (obj : Fields)
      → IsText (get "tool_choice" (put "tool_choice" (string name) obj))
  forced name obj = inr (name, get-put "tool_choice" "tool_choice" (string name) obj)

  choice-IsText :
      (choice : Json) (obj : Fields)
      → get "tool_choice" obj ≡ some choice
      → IsText (get "tool_choice" (normalize_choice unicode equal_fold choice obj).0)
  unfolding normalize_choice
  choice-IsText (string v) obj there =
      if_elim (λ (p : Fields × Bool). IsText (get "tool_choice" p.0))
        (equal_fold (trim_space v) "none") _ (obj, false) (λ _. inl (suppressed-none obj))
        λ _. inr (v, there)
  choice-IsText (object v) obj there =
      let typ = to_lower unicode (codes (trim_space (text_of (get "type" v)))) in
      if_elim Good (runes_eq typ (codes "none")) _ _ (λ _. inl (suppressed-none obj))
        λ _.
          if_elim Good (runes_eq typ (codes "auto")) _ _ (λ _. forced "auto" obj)
            λ _.
              if_elim Good (runes_eq typ (codes "required")) _ _ (λ _. forced "required" obj)
                λ _.
                  if_elim Good (runes_eq typ (codes "function")) _ _ (λ _. forced _ obj)
                    λ _. inl (get-remove "tool_choice" "tool_choice" obj)
    where
      Good : Fields × Bool → Type 0
      Good p = IsText (get "tool_choice" p.0)
  choice-IsText null obj there = inl (get-remove "tool_choice" "tool_choice" obj)
  choice-IsText (bool b) obj there = inl (get-remove "tool_choice" "tool_choice" obj)
  choice-IsText (number n) obj there = inl (get-remove "tool_choice" "tool_choice" obj)
  choice-IsText (array xs) obj there = inl (get-remove "tool_choice" "tool_choice" obj)

  suppressed-get :
      (obj : Fields) (k : String)
      → is_other k ≡ true
      → get k (suppress_tools (remove "tool_choice" obj)) ≡ get k obj
  suppressed-get obj k other = ground (
    arith,
    other,
    get-remove "tool_choice" k obj,
    get-remove "tools" k (remove "tool_choice" obj),
    get-remove "functions" k (remove "tools" (remove "tool_choice" obj)),
    string_eq.beq_iff k "tool_choice",
    string_eq.beq_iff k "tools",
    string_eq.beq_iff k "functions",
    string_eq.beq_iff "tool_choice" k,
    string_eq.beq_iff "tools" k,
    string_eq.beq_iff "functions" k,
  )

  removed-get :
      (obj : Fields) (k : String) → is_other k ≡ true → get k (remove "tool_choice" obj) ≡ get k obj
  removed-get obj k other = ground (
    arith,
    other,
    get-remove "tool_choice" k obj,
    string_eq.beq_iff k "tool_choice",
    string_eq.beq_iff "tool_choice" k,
  )

  forced-get :
      (name : String) (obj : Fields) (k : String)
      → is_other k ≡ true
      → get k (put "tool_choice" (string name) obj) ≡ get k obj
  forced-get name obj k other = ground (
    arith,
    other,
    get-put "tool_choice" k (string name) obj,
    string_eq.beq_iff k "tool_choice",
    string_eq.beq_iff "tool_choice" k,
  )

  choice-get :
      (choice : Json) (obj : Fields) (k : String)
      → is_other k ≡ true
      → get k (normalize_choice unicode equal_fold choice obj).0 ≡ get k obj
  unfolding normalize_choice
  choice-get (string v) obj k other = ground (arith, suppressed-get obj k other)
  choice-get (object v) obj k other = ground (
    arith,
    suppressed-get obj k other,
    removed-get obj k other,
    forced-get "auto" obj k other,
    forced-get "required" obj k other,
    forced-get (function_name v) obj k other,
  )
  choice-get null obj k other = removed-get obj k other
  choice-get (bool b) obj k other = removed-get obj k other
  choice-get (number n) obj k other = removed-get obj k other
  choice-get (array xs) obj k other = removed-get obj k other

  -- The normalized request has no `tool_choice` or a text there, which is what the upstream accepts,
  -- and of the other fields only `tools` and `functions` may have changed.
  pub normalize_tools_in_place-IsText :
      (obj : Fields) (k : String)
      → is_other k ≡ true
      → let out = (normalize_tools_in_place unicode equal_fold obj).0 in
        IsText (get "tool_choice" out) × (get k out ≡ get k obj)
  unfolding normalize_tools_in_place
  normalize_tools_in_place-IsText obj k other = elim (Option-cases (get "tool_choice" obj)) [
    | inl absent ↦ rw (absent, normalize_tools_in_place) (inl absent, refl)
    | inr (choice, there) ↦
        rw (there, normalize_tools_in_place)
          (choice-IsText choice obj there, choice-get choice obj k other)
  ]
