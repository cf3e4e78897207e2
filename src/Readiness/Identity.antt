-- ===== src/Readiness/Identity.antt =====
-- The discoveries of one identity, in workbuddy/model_readiness.go (`startIdentityCall`,
-- `settleIdentityCall`, `saveModelsForGeneration`): the order in which their catalogs reach the store.
use workbuddy_cpa_plugin.Base.{
  ℕ, ◌≤◌, ◌≡◌, ◌⊎◌, inl, inr, refl, sym, ◌∙◌, Bool, false, ◌&&◌, not, List, [], ◌∷◌, if◌then◌else◌,
  ◌==◌, ltb, nat_eq, arith,
}
use workbuddy_cpa_plugin.Readiness.{next64}
use workbuddy_cpa_plugin.Readiness.Outcome.{Saved, outdated, superseded, written, not_written}

-- `modelIdentitySlot`; the calls at work are known by their sequence numbers.
pub record ModelIdentitySlot : Type 0 where
  pub next_sequence : ℕ
  pub committed_sequence : ℕ
  pub committed_config : ℕ
  pub active : List ℕ

-- `startIdentityCall`: the slot, and the number of the call.
unfoldable pub start_identity_call : ModelIdentitySlot → ModelIdentitySlot × ℕ
start_identity_call s =
    let n = next64 s.next_sequence in (record s { next_sequence = n; active = n ∷ s.active }, n)

unfoldable pub without : ℕ → List ℕ → List ℕ
without n [] = []
without n (a ∷ rest) = let others = without n rest in if a == n then others else a ∷ others

-- `settleIdentityCallLocked`: the slot, and the calls that are still at work.
unfoldable pub settle_identity_call : ℕ → ModelIdentitySlot → ModelIdentitySlot × List ℕ
unfolding without
settle_identity_call n s = (record s { active = without n s.active }, without n s.active)

-- The catalog of an identity in the store, and its slot.
pub record Shared {ℓ} (K : Type ℓ) : Type ℓ where
  pub slot : ModelIdentitySlot
  pub stored : K

-- `saveModelsForGeneration`: whether the auth's generation is current and whether the write succeeds are
-- arguments. It returns what happened and, after a write was tried, the calls to wait for.
unfoldable pub save_models_for_generation {ℓ} :
    {K : Type ℓ} → Bool → Bool → ℕ → ℕ → K → Shared K → Shared K × Saved × List ℕ
unfolding settle_identity_call
save_models_for_generation current writes config n k s =
    if not current
    then (record s { slot = (settle_identity_call n s.slot).0 }, outdated, [])
    else if s.slot.committed_config == config && ltb n s.slot.committed_sequence
    then (record s { slot = (settle_identity_call n s.slot).0 }, superseded, [])
    else let t = settle_identity_call n s.slot in
      if writes
      then (
        record {
          slot = record t.0 { committed_config = config; committed_sequence = n };
          stored = k;
        },
        written,
        t.1,
      )
      else (record s { slot = t.0 }, not_written, t.1)

-- A save of one configuration's discovery: whether it is current, whether the write succeeds, its
-- number and its catalog.
pub record Save {ℓ} (K : Type ℓ) : Type ℓ where
  pub current : Bool
  pub writes : Bool
  pub sequence : ℕ
  pub catalog : K

module _ {K : Type 0} (config : ℕ) where
  abbrev save : Save K → Shared K → Shared K
  save x s = (save_models_for_generation x.current x.writes config x.sequence x.catalog s).0

  unfoldable pub save_all : List (Save K) → Shared K → Shared K
  save_all [] s = s
  save_all (x ∷ xs) s = save_all xs (save x s)

  -- No save of the list that could be written is newer than a number.
  abbrev pub AreUpTo : ℕ → List (Save K) → Type 0
  AreUpTo n [] = Unit
  AreUpTo n (x ∷ xs) = ((x.current && x.writes ≡ false) ⊎ (x.sequence ≤ n)) × AreUpTo n xs

  -- The catalog of a state is that of a save of the list with a number.
  abbrev pub IsOf : ℕ → K → List (Save K) → Type 0
  IsOf n k [] = ⊥
  IsOf n k (x ∷ xs) = ((x.sequence ≡ n) × (x.catalog ≡ k)) ⊎ IsOf n k xs

  -- After the first write of a configuration, each save leaves the committed number as large as its own.
  save_newest :
      (x : Save K) (s : Shared K)
      → s.slot.committed_config ≡ config
      → ((save x s).slot.committed_config ≡ config)
        × (s.slot.committed_sequence ≤ (save x s).slot.committed_sequence)
        × ((x.current && x.writes ≡ false) ⊎ (x.sequence ≤ (save x s).slot.committed_sequence))
        × ((((save x s).slot.committed_sequence ≡ s.slot.committed_sequence)
              × ((save x s).stored ≡ s.stored))
            ⊎ (((save x s).slot.committed_sequence ≡ x.sequence) × ((save x s).stored ≡ x.catalog)))
  unfolding save_models_for_generation settle_identity_call
  save_newest x s h = ground arith

  -- Discoveries of one identity are saved in any order, at one configuration, starting with a slot that a
  -- discovery of this configuration has committed. Then no write that succeeds is newer than the number
  -- committed at the end, and the stored catalog is that of the beginning or of a save with that number:
  -- an older discovery never replaces a newer one.
  pub save_all_newest :
      (xs : List (Save K)) (s : Shared K)
      → s.slot.committed_config ≡ config
      → (s.slot.committed_sequence ≤ (save_all xs s).slot.committed_sequence)
        × AreUpTo (save_all xs s).slot.committed_sequence xs
        × ((((save_all xs s).slot.committed_sequence ≡ s.slot.committed_sequence)
              × ((save_all xs s).stored ≡ s.stored))
            ⊎ IsOf (save_all xs s).slot.committed_sequence (save_all xs s).stored xs)
  unfolding save_all
  save_all_newest [] s h = (omega arith, tt, inl (refl, refl))
  save_all_newest (x ∷ xs) s h =
      let f = save_newest x s h in
      let r = save_all_newest xs (save x s) f.0 in
      (
        omega (arith, f.1, r.0),
        (elim f.2 [ inl skipped ↦ inl skipped | inr le ↦ inr (omega (arith, le, r.0)) ], r.1),
        elim r.2 [
          | inr own ↦ inr (inr own)
          | inl same ↦ elim f.3 [
            | inl kept ↦ inl (same.0 ∙ kept.0, same.1 ∙ kept.1)
            | inr new ↦ inr (inl (sym (same.0 ∙ new.0), sym (same.1 ∙ new.1)))
          ]
        ],
      )
