-- ===== src/Overlay/Served.antt =====
-- The catalog that `applyModelOverlay` of workbuddy/model_config.go serves: nothing hidden, nothing lost.
use workbuddy_cpa_plugin.Base.{
  ℕ, ◌+◌, ◌≡◌, inl, inr, refl, ap, ◌∙◌, List, [], ◌∷◌, ◌++◌, String, string_eq, ◌==◌, if◌then◌else◌,
  arith, Bool-cases,
}
use workbuddy_cpa_plugin.Base.Text.{trim_space, trim_space_idem}
use workbuddy_cpa_plugin.Overlay.{
  ModelInfo, ModelOverlay, is_listed, place, key, keep_if, insert_ranked, sort_ranked, is_pinned,
  is_kept, pinned_out, added, apply_model_overlay,
}
use workbuddy_cpa_plugin.Overlay.Fronted.{IsFronted, apply_model_overlay-IsFronted}

-- How many IDs of a list are an ID, trimmed.
unfoldable pub count_ids : String → List String → ℕ
count_ids id [] = 0
count_ids id (x ∷ xs) = (if trim_space x == id then 1 else 0) + count_ids id xs

module _ {ℓ} {R : Type ℓ} where
  -- How many models have a trimmed ID.
  unfoldable pub count : String → List (ModelInfo R) → ℕ
  count id [] = 0
  count id (m ∷ ms) = (if key m == id then 1 else 0) + count id ms

  count-append :
      (id : String) (ms ns : List (ModelInfo R)) → count id (ms ++ ns) ≡ count id ms + count id ns
  unfolding count
  count-append id [] ns = omega arith
  count-append id (m ∷ ms) ns = omega (arith, count-append id ms ns)

  count-insert_ranked :
      (id : String) (rank : ModelInfo R → ℕ) (m : ModelInfo R) (ms : List (ModelInfo R))
      → count id (insert_ranked rank m ms) ≡ (if key m == id then 1 else 0) + count id ms
  unfolding count insert_ranked
  count-insert_ranked id rank m [] = refl
  count-insert_ranked id rank m (n ∷ ns) = ground (arith, count-insert_ranked id rank m ns)

  count-sort_ranked :
      (id : String) (rank : ModelInfo R → ℕ) (ms : List (ModelInfo R))
      → count id (sort_ranked rank ms) ≡ count id ms
  unfolding count sort_ranked
  count-sort_ranked id rank [] = refl
  count-sort_ranked id rank (m ∷ ms) =
      omega
        (arith, count-insert_ranked id rank m (sort_ranked rank ms), count-sort_ranked id rank ms)

  -- The models that are pinned and those that are kept are the ones that are not hidden.
  count-parts :
      (id : String) (o : ModelOverlay) (ms : List (ModelInfo R))
      → count id (keep_if (is_pinned o) ms) + count id (keep_if (is_kept o) ms)
        ≡ (if is_listed id o.hide then 0 else count id ms)
  unfolding count keep_if
  count-parts id o [] = ground arith
  count-parts id o (m ∷ ms) = elim (Bool-cases (key m == id)) [
    | inl e ↦
        let same : is_listed (key m) o.hide ≡ is_listed id o.hide =
          ap (λ k. is_listed k o.hide) ((string_eq.beq_iff (key m) id).0 e) in
        ground (arith, e, same, count-parts id o ms)
    | inr n ↦ ground (arith, n, count-parts id o ms)
  ]

  count-added :
      (id : String) (fresh : String → ModelInfo R) (hide ids : List String)
      → ((s : String) → key (fresh s) ≡ trim_space s)
      → count id (added fresh hide ids) ≡ (if is_listed id hide then 0 else count_ids id ids)
  unfolding count count_ids added
  count-added id fresh hide [] named = ground arith
  count-added id fresh hide (x ∷ xs) named =
      let k : key (fresh (trim_space x)) ≡ trim_space x =
        named (trim_space x) ∙ trim_space_idem x in
      let kk : (key (fresh (trim_space x)) == id) ≡ (trim_space x == id) = ap (λ s. s == id) k in
      let rest = count-added id fresh hide xs named in
      elim (Bool-cases (trim_space x == id)) [
        | inl e ↦
            let same : is_listed (trim_space x) hide ≡ is_listed id hide =
              ap (λ k. is_listed k hide) ((string_eq.beq_iff (trim_space x) id).0 e) in
            ground (arith, e, kk, same, rest)
        | inr n ↦ ground (arith, n, kk, rest)
      ]

  -- For every catalog, overlay and ID: a hidden ID is not served; every other ID is served as often as the
  -- catalog and the added IDs have it, so that nothing is lost or doubled; and what is served begins with
  -- pinned models, in the order of their pins, goes on with models that are not pinned, and ends with
  -- models of added IDs. An added model must have the ID that it is added by.
  pub apply_model_overlay-count :
      (fresh : String → ModelInfo R) (base : List (ModelInfo R)) (o : ModelOverlay) (id : String)
      → ((s : String) → key (fresh s) ≡ trim_space s)
      → (count id (apply_model_overlay fresh base o)
          ≡ (if is_listed id o.hide then 0 else count id base + count_ids id o.add))
        × IsFronted o (apply_model_overlay fresh base o)
  unfolding apply_model_overlay
  apply_model_overlay-count fresh base o id named =
      let kept = keep_if (is_kept o) base in
      let extra = added fresh o.hide o.add in
      let rank : ModelInfo R → ℕ = λ m. place (key m) o.order in
      (
        ground (
          arith,
          count-append id (pinned_out o base) (kept ++ extra),
          count-append id kept extra,
          count-sort_ranked id rank (keep_if (is_pinned o) base),
          count-parts id o base,
          count-added id fresh o.hide o.add named,
        ),
        apply_model_overlay-IsFronted fresh base o named,
      )
