-- ===== src/Overlay/Fronted.antt =====
-- The order of the models that `applyModelOverlay` of workbuddy/model_config.go serves.
use workbuddy_cpa_plugin.Base.{
  ℕ, Bool, true, false, ◌≤◌, ◌≡◌, inl, inr, refl, ◌∙◌, List, [], ◌∷◌, ◌++◌, String, leb, string_eq,
  arith, Bool-cases,
}
use workbuddy_cpa_plugin.Base.Lists.{All}
use workbuddy_cpa_plugin.Base.Text.{trim_space, trim_space_idem}
use workbuddy_cpa_plugin.Overlay.{
  ModelInfo, ModelOverlay, is_listed, place, key, keep_if, insert_ranked, sort_ranked, is_pinned,
  is_kept, pinned_out, added, apply_model_overlay,
}

is_listed-later :
    (k x : String) (xs : List String) → is_listed k xs ≡ true → is_listed k (x ∷ xs) ≡ true
unfolding is_listed
is_listed-later k x xs e = ground (arith, e)

module _ {ℓ} {R : Type ℓ} where
  -- The ranks of a list never fall.
  abbrev pub IsRanked : (ModelInfo R → ℕ) → List (ModelInfo R) → Type 0
  IsRanked rank [] = Unit
  IsRanked rank (m ∷ ms) = All (λ n. rank m ≤ rank n) ms × IsRanked rank ms

  All-insert_ranked :
      (rank : ModelInfo R → ℕ) (k : ℕ) (m : ModelInfo R) (ms : List (ModelInfo R))
      → k ≤ rank m
      → All (λ n. k ≤ rank n) ms
      → All (λ n. k ≤ rank n) (insert_ranked rank m ms)
  unfolding insert_ranked
  All-insert_ranked rank k m [] le a = (le, tt)
  All-insert_ranked rank k m (n ∷ ns) le a = elim (Bool-cases (leb (rank m) (rank n))) [
    | inl front ↦ rw front (le, a)
    | inr behind ↦ rw behind (a.0, All-insert_ranked rank k m ns le a.1)
  ]

  All-above :
      (rank : ModelInfo R → ℕ) (j k : ℕ) (ms : List (ModelInfo R))
      → j ≤ k
      → All (λ n. k ≤ rank n) ms
      → All (λ n. j ≤ rank n) ms
  All-above rank j k [] le a = tt
  All-above rank j k (n ∷ ns) le a = (omega (arith, a.0), All-above rank j k ns le a.1)

  insert_ranked-IsRanked :
      (rank : ModelInfo R → ℕ) (m : ModelInfo R) (ms : List (ModelInfo R))
      → IsRanked rank ms
      → IsRanked rank (insert_ranked rank m ms)
  unfolding insert_ranked
  insert_ranked-IsRanked rank m [] r = (tt, tt)
  insert_ranked-IsRanked rank m (n ∷ ns) r = elim (Bool-cases (leb (rank m) (rank n))) [
    | inl front ↦
        let le : rank m ≤ rank n = ground (arith, front) in
        rw front ((le, All-above rank (rank m) (rank n) ns le r.0), r)
    | inr behind ↦ rw behind (
      All-insert_ranked rank (rank n) m ns (ground (arith, behind)) r.0,
      insert_ranked-IsRanked rank m ns r.1,
    )
  ]

  sort_ranked-IsRanked :
      (rank : ModelInfo R → ℕ) (ms : List (ModelInfo R)) → IsRanked rank (sort_ranked rank ms)
  unfolding sort_ranked
  sort_ranked-IsRanked rank [] = tt
  sort_ranked-IsRanked rank (m ∷ ms) =
      insert_ranked-IsRanked rank m (sort_ranked rank ms) (sort_ranked-IsRanked rank ms)

  -- A list whose pinned models stand in front, in the order of their pins: those of the catalog that are
  -- pinned, then those that are not, and at the end the added ones.
  pub record IsFronted (o : ModelOverlay) (out : List (ModelInfo R)) : Type ℓ where
    front : List (ModelInfo R)
    middle : List (ModelInfo R)
    back : List (ModelInfo R)
    split : out ≡ front ++ (middle ++ back)
    ranked : IsRanked (λ m. place (key m) o.order) front
    pinned : All (λ m. is_listed (key m) o.order ≡ true) front
    unpinned : All (λ m. is_listed (key m) o.order ≡ false) middle
    new : All (λ m. is_listed (key m) o.add ≡ true) back

  All-keep_if :
      (P : ModelInfo R → Type 0) (p : ModelInfo R → Bool) (ms : List (ModelInfo R))
      → ((m : ModelInfo R) → p m ≡ true → P m)
      → All P (keep_if p ms)
  unfolding keep_if
  All-keep_if P p [] h = tt
  All-keep_if P p (m ∷ ms) h = elim (Bool-cases (p m)) [
    | inl kept ↦ rw kept (h m kept, All-keep_if P p ms h)
    | inr left ↦ rw left (All-keep_if P p ms h)
  ]

  All-inserted :
      (P : ModelInfo R → Type 0) (rank : ModelInfo R → ℕ) (m : ModelInfo R)
      (ms : List (ModelInfo R))
      → P m
      → All P ms
      → All P (insert_ranked rank m ms)
  unfolding insert_ranked
  All-inserted P rank m [] h a = (h, tt)
  All-inserted P rank m (n ∷ ns) h a = elim (Bool-cases (leb (rank m) (rank n))) [
    | inl front ↦ rw front (h, a)
    | inr behind ↦ rw behind (a.0, All-inserted P rank m ns h a.1)
  ]

  All-sort_ranked :
      (P : ModelInfo R → Type 0) (rank : ModelInfo R → ℕ) (ms : List (ModelInfo R))
      → All P ms
      → All P (sort_ranked rank ms)
  unfolding sort_ranked
  All-sort_ranked P rank [] a = tt
  All-sort_ranked P rank (m ∷ ms) a =
      All-inserted P rank m (sort_ranked rank ms) a.0 (All-sort_ranked P rank ms a.1)

  All-later :
      (x : String) (xs : List String) (ms : List (ModelInfo R))
      → All (λ m. is_listed (key m) xs ≡ true) ms
      → All (λ m. is_listed (key m) (x ∷ xs) ≡ true) ms
  All-later x xs [] a = tt
  All-later x xs (m ∷ ms) a = (is_listed-later (key m) x xs a.0, All-later x xs ms a.1)

  All-added :
      (fresh : String → ModelInfo R) (hide ids : List String)
      → ((s : String) → key (fresh s) ≡ trim_space s)
      → All (λ m. is_listed (key m) ids ≡ true) (added fresh hide ids)
  unfolding added is_listed
  All-added fresh hide [] named = tt
  All-added fresh hide (x ∷ xs) named =
      let rest = All-later x xs (added fresh hide xs) (All-added fresh hide xs named) in
      let k : key (fresh (trim_space x)) ≡ trim_space x =
        named (trim_space x) ∙ trim_space_idem x in
      elim (Bool-cases (is_listed (trim_space x) hide)) [
        | inl hidden ↦ rw hidden rest
        | inr shown ↦
            rw shown (rw (k, (string_eq.beq_iff (trim_space x) (trim_space x)).1 refl) refl, rest)
      ]

  pub apply_model_overlay-IsFronted :
      (fresh : String → ModelInfo R) (base : List (ModelInfo R)) (o : ModelOverlay)
      → ((s : String) → key (fresh s) ≡ trim_space s)
      → IsFronted o (apply_model_overlay fresh base o)
  unfolding apply_model_overlay
  apply_model_overlay-IsFronted fresh base o named =
      let rank : ModelInfo R → ℕ = λ m. place (key m) o.order in
      record {
        front = pinned_out o base;
        middle = keep_if (is_kept o) base;
        back = added fresh o.hide o.add;
        split = refl;
        ranked = sort_ranked-IsRanked rank (keep_if (is_pinned o) base);
        pinned =
            All-sort_ranked (λ m. is_listed (key m) o.order ≡ true) rank
              (keep_if (is_pinned o) base)
              (All-keep_if (λ m. is_listed (key m) o.order ≡ true) (is_pinned o) base
                (λ m e. ground (arith, e)));
        unpinned =
            All-keep_if (λ m. is_listed (key m) o.order ≡ false) (is_kept o) base
              (λ m e. ground (arith, e));
        new = All-added fresh o.hide o.add named;
      }
