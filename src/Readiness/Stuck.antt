-- ===== src/Readiness/Stuck.antt =====
-- No account is left loading with no call at work for it.
use workbuddy_cpa_plugin.Base.{
  ℕ, ◌+◌, ◌≤◌, ◌<◌, ◌≡◌, refl, ◌⊎◌, inl, inr, Bool, true, false, ◌&&◌, List, [], ◌∷◌, Option, none,
  some, ◌==◌, nat_eq, is_some, arith, Bool-cases,
}
use workbuddy_cpa_plugin.Base.Maps.{lookup, Distinct, AllEntries}
use workbuddy_cpa_plugin.Readiness.{
  ModelReadinessSnapshot, ModelGenerationKey, ModelAuthCall, is_loading, same_key, same_key_iff,
  next64,
}
use workbuddy_cpa_plugin.Readiness.Slots.{ModelAuthSlot, rekey}
use workbuddy_cpa_plugin.Readiness.Calls.{}

-- The number of values of a `uint64`.
abbrev pub limit64 : ℕ
limit64 = 18_446_744_073_709_551_616

module _ {ℓ} {C : Type ℓ} where
  -- Whether readers see a slot that loads at its present generation.
  abbrev pub is_waiting : ℕ → ℕ → Option (ModelReadinessSnapshot C) → Bool
  is_waiting generation next none = false
  is_waiting generation next (some c) =
      is_loading c.state && c.auth_generation == next && c.config_generation == generation

  abbrev pub IsStamped : ℕ → ModelAuthSlot C → Option (ModelReadinessSnapshot C) → Type 0
  IsStamped generation slot none = Unit {0}
  IsStamped generation slot (some c) =
      (c.auth_generation ≤ slot.next_auth)
      × (c.config_generation ≤ generation)
      × ((c.auth_generation < slot.next_auth) ⊎ (c.config_generation ≡ slot.key.config))

-- A call at work, under its generation.
pub record IsCall (generation : ℕ) (next : ℕ) (key : ModelGenerationKey) (g : ℕ)
    (call : ModelAuthCall) : Type 0 where
  pub past : g ≤ next
  pub configured : call.key.config ≤ generation
  pub own : (g < next) ⊎ (call.key ≡ key)
  pub outdated : (call.gave_up ≡ false) ⊎ (g < next) ⊎ (call.key.config < generation)

pub record IsSlot {ℓ} {C : Type ℓ} (generation : ℕ) (slot : ModelAuthSlot C) : Type ℓ where
  pub keyed : slot.key.config ≤ generation
  pub distinct : Distinct slot.calls
  pub stamped : IsStamped generation slot slot.current
  pub called : AllEntries (IsCall generation slot.next_auth slot.key) slot.calls
  pub live :
      (is_waiting generation slot.next_auth slot.current ≡ false)
      ⊎ (is_some (lookup slot.next_auth slot.calls) ≡ true)

later-called :
    (generation next next' : ℕ) (key key' : ModelGenerationKey) (m : List (ℕ × ModelAuthCall))
    → next < next'
    → AllEntries (IsCall generation next key) m
    → AllEntries (IsCall generation next' key') m
later-called generation next next' key key' [] h a = tt
later-called generation next next' key key' ((g, c) ∷ m) h a = (
  record {
    past = omega (arith, a.0.past);
    configured = a.0.configured;
    own = inl (omega (arith, a.0.past));
    outdated = inr (inl (omega (arith, a.0.past)));
  },
  later-called generation next next' key key' m h a.1,
)

pub newer-called :
    (generation newer next : ℕ) (key : ModelGenerationKey) (m : List (ℕ × ModelAuthCall))
    → generation ≤ newer
    → AllEntries (IsCall generation next key) m
    → AllEntries (IsCall newer next key) m
newer-called generation newer next key [] h a = tt
newer-called generation newer next key ((g, c) ∷ m) h a = (
  record {
    past = a.0.past;
    configured = omega (arith, a.0.configured);
    own = a.0.own;
    outdated = ground (arith, a.0.outdated);
  },
  newer-called generation newer next key m h a.1,
)

module _ {ℓ} {C : Type ℓ} (generation : ℕ) (slot slot' : ModelAuthSlot C) where
  later-IsStamped :
      (c : Option (ModelReadinessSnapshot C))
      → slot.next_auth < slot'.next_auth
      → IsStamped generation slot c
      → IsStamped generation slot' c
  later-IsStamped none up w = tt
  later-IsStamped (some c) up w = (omega (arith, w.0), w.1, inl (omega (arith, w.0)))

  later-waiting :
      (c : Option (ModelReadinessSnapshot C))
      → slot.next_auth < slot'.next_auth
      → IsStamped generation slot c
      → is_waiting generation slot'.next_auth c ≡ false
  later-waiting none up w = refl
  later-waiting (some c) up w = ground (arith, w.0)

module _ {ℓ} {C : Type ℓ} (generation : ℕ) (slot : ModelAuthSlot C) where
  pub rekey-IsSlot :
      (key : ModelGenerationKey)
      → key.config ≤ generation
      → slot.next_auth + 1 < limit64
      → IsSlot generation slot
      → IsSlot generation (rekey key slot)
        × ((rekey key slot).key ≡ key)
        × (slot.next_auth ≤ (rekey key slot).next_auth)
        × ((rekey key slot).next_auth ≤ slot.next_auth + 1)
  unfolding rekey
  rekey-IsSlot key le room w = elim (Bool-cases (same_key slot.key key)) [
    | inl same ↦ rw same (w, (same_key_iff slot.key key).0 same, omega arith, omega arith)
    | inr other ↦
        let up : slot.next_auth < next64 slot.next_auth = omega arith in
        let slot' : ModelAuthSlot C = record slot {
          key = key;
          next_auth = next64 slot.next_auth;
        } in
        rw other (
          record {
            keyed = le;
            distinct = w.distinct;
            stamped = later-IsStamped generation slot slot' slot.current up w.stamped;
            called =
                later-called generation slot.next_auth (next64 slot.next_auth) slot.key key
                  slot.calls up w.called;
            live = inl (later-waiting generation slot slot' slot.current up w.stamped);
          },
          refl,
          omega arith,
          omega arith,
        )
  ]
