-- ===== src/Lifecycle/Inherited.antt =====
-- What `buildAuthFileJSONFrom` of workbuddy/authfile.go writes is what the readers of the file find.
use workbuddy_cpa_plugin.Base.{
  ◌≡◌, refl, ◌∙◌, ap, Bool, false, List, [], ◌∷◌, Option, none, some, String, string_eq, ◌==◌,
  if◌then◌else◌, Bool-cases, inl, inr,
}
use workbuddy_cpa_plugin.Base.Text.{trim_space, is_empty}
use workbuddy_cpa_plugin.Json.{Json, bool, string, Fields, get}
use workbuddy_cpa_plugin.Payload.Tools.{get-put, get-remove}
use workbuddy_cpa_plugin.Lifecycle.{
  StoredDocument, build_auth_file_json_from, parse_disabled, disabled_reason, raw_note, as_bool,
  as_text,
}

-- A key that not every rewrite sets.
abbrev pub IsUnowned : String → Type 0
IsUnowned j =
    (("email" == j) ≡ false)
    × (("account" == j) ≡ false)
    × (("auth" == j) ≡ false)
    × (("note" == j) ≡ false)
    × (("label" == j) ≡ false)
    × (("disabled" == j) ≡ false)
    × (("logo" == j) ≡ false)
    × (("provider" == j) ≡ false)
    × (("type" == j) ≡ false)

-- What the callers of `buildAuthFileJSONFrom` do with the reason.
pub data ReasonChange : Type 0 where
  keeps : ReasonChange
  sets : String → ReasonChange
  clears : ReasonChange

abbrev pub extra_of : ReasonChange → List (String × Option Json)
extra_of keeps = []
extra_of (sets code) = ("disabled_reason", some (string code)) ∷ []
extra_of clears = ("disabled_reason", none) ∷ []

abbrev pub reason_of : ReasonChange → String → String
reason_of keeps before = before
reason_of (sets code) before = trim_space code
reason_of clears before = ""

module _ (sa : StoredDocument) (disabled : Bool) (note : String) (base : Fields) where
  get-build :
      (j : String)
      → get j (build_auth_file_json_from sa disabled note [] base) ≡ (
          if "email" == j
          then (if is_empty sa.email then none else some (string sa.email))
          else if "account" == j
          then some sa.account
          else if "auth" == j
          then some sa.auth
          else if "note" == j
          then some (string note)
          else if "label" == j
          then some (string sa.label)
          else if "disabled" == j
          then some (bool disabled)
          else if "logo" == j
          then some (
              string
                "https://raw.githubusercontent.com/DGZSbot/ai-icon/refs/heads/main/WorkBuddy.png")
          else if "provider" == j
          then some (string "workbuddy")
          else if "type" == j
          then some (string "workbuddy")
          else get j base)
  unfolding build_auth_file_json_from
  get-build j = elim (Bool-cases (is_empty sa.email)) [
    | inl e ↦ rw e (simp (get-put, get-remove))
    | inr e ↦ rw e (simp get-put)
  ]

  inherited :
      (j : String)
      → IsUnowned j
      → get j (build_auth_file_json_from sa disabled note [] base) ≡ get j base
  inherited j o = let g = get-build j in (rw (o.0, o.1, o.2, o.3, o.4, o.5, o.6, o.7, o.8) at g)

  -- The reason that a file has after a rewrite: the one it had, a new one, or none.
  abbrev pub reason_after : List (String × Option Json) → String
  reason_after extra = disabled_reason (build_auth_file_json_from sa disabled note extra base)

  pub parse_disabled-build :
      parse_disabled (build_auth_file_json_from sa disabled note [] base) ≡ disabled
  unfolding parse_disabled
  parse_disabled-build = ap as_bool (get-build "disabled")

  pub disabled_reason-build : reason_after [] ≡ disabled_reason base
  unfolding disabled_reason
  disabled_reason-build =
      ap (λ (o : Option Json). trim_space (as_text o)) (get-build "disabled_reason")

  pub parse_disabled-clear :
      parse_disabled
        (build_auth_file_json_from sa disabled note (("disabled_reason", none) ∷ []) base)
      ≡ disabled
  unfolding parse_disabled build_auth_file_json_from
  parse_disabled-clear = ap as_bool (
      get-remove "disabled_reason" "disabled" (build_auth_file_json_from sa disabled note [] base)
      ∙ get-build "disabled")

  pub disabled_reason-clear : reason_after (("disabled_reason", none) ∷ []) ≡ ""
  unfolding disabled_reason build_auth_file_json_from trim_space
  disabled_reason-clear =
      ap (λ (o : Option Json). trim_space (as_text o))
        (get-remove "disabled_reason" "disabled_reason"
          (build_auth_file_json_from sa disabled note [] base))

  -- What a rewrite makes of any other key: what it is without a change of the reason.
  get-rewrite :
      (c : ReasonChange) (j : String)
      → ("disabled_reason" == j) ≡ false
      → get j (build_auth_file_json_from sa disabled note (extra_of c) base)
        ≡ get j (build_auth_file_json_from sa disabled note [] base)
  unfolding build_auth_file_json_from
  get-rewrite keeps j other = refl
  get-rewrite (sets code) j other =
      get-put "disabled_reason" j (string code) (build_auth_file_json_from sa disabled note [] base)
      ∙ rw other refl
  get-rewrite clears j other =
      get-remove "disabled_reason" j (build_auth_file_json_from sa disabled note [] base)
      ∙ rw other refl

  reason_after-change :
      (c : ReasonChange) → reason_after (extra_of c) ≡ reason_of c (disabled_reason base)
  unfolding build_auth_file_json_from disabled_reason
  reason_after-change keeps = disabled_reason-build
  reason_after-change (sets code) =
      ap (λ (o : Option Json). trim_space (as_text o))
        (get-put "disabled_reason" "disabled_reason" (string code)
          (build_auth_file_json_from sa disabled note [] base))
  reason_after-change clears = disabled_reason-clear

  -- Whether a rewrite keeps the recorded reason, sets another one or clears it, the file then says what
  -- was written - disabled or not, the note, the tokens and the account - and its reason is the one that
  -- it had, the new one trimmed, or none. Every other key that a rewrite does not set is inherited from
  -- the file as it was.
  pub build_auth_file_json_from-read :
      (c : ReasonChange) (j : String)
      → IsUnowned j
      → ("disabled_reason" == j) ≡ false
      → let written = build_auth_file_json_from sa disabled note (extra_of c) base in
        (parse_disabled written ≡ disabled)
        × (raw_note written ≡ note)
        × (get "auth" written ≡ some sa.auth)
        × (get "account" written ≡ some sa.account)
        × (disabled_reason written ≡ reason_of c (disabled_reason base))
        × (get j written ≡ get j base)
  unfolding parse_disabled raw_note
  build_auth_file_json_from-read c j outside other = (
    ap as_bool (get-rewrite c "disabled" refl ∙ get-build "disabled"),
    ap as_text (get-rewrite c "note" refl ∙ get-build "note"),
    get-rewrite c "auth" refl ∙ get-build "auth",
    get-rewrite c "account" refl ∙ get-build "account",
    reason_after-change c,
    get-rewrite c j other ∙ inherited j outside,
  )
