-- ===== src/Credits/Sorted.antt =====
-- `modelCreditsSnapshot` and `sortStrings` of workbuddy/model_credits.go. Texts are lists of runes: their
-- order by runes is the order of their bytes. The array that `sortStrings` works in is the sorted part,
-- read from its end, and the part that is still to come.
use workbuddy_cpa_plugin.Base.{
  ℕ, ◌+◌, ◌≡◌, inl, inr, refl, ◌∙◌, Bool, true, false, List, [], ◌∷◌, ltb, nat_eq, ◌==◌,
  if◌then◌else◌, arith, Bool-cases,
}
use workbuddy_cpa_plugin.Base.Text.{runes_eq}

-- `a < b` on texts.
unfoldable pub text_lt : List ℕ → List ℕ → Bool
text_lt s [] = false
text_lt [] (d ∷ t) = true
text_lt (c ∷ s) (d ∷ t) =
    let rest = text_lt s t in if ltb c d then true else if c == d then rest else false

-- The inner loop: the value at `j` moves down while it is less than the one below it.
unfoldable pub sink : List ℕ → List (List ℕ) → List (List ℕ)
sink x [] = x ∷ []
sink x (y ∷ ys) = let rest = sink x ys in if text_lt x y then y ∷ rest else x ∷ y ∷ ys

-- The outer loop.
unfoldable pub sort_from : List (List ℕ) → List (List ℕ) → List (List ℕ)
sort_from down [] = down
sort_from down (x ∷ xs) = sort_from (sink x down) xs

unfoldable pub reverse_onto : List (List ℕ) → List (List ℕ) → List (List ℕ)
reverse_onto acc [] = acc
reverse_onto acc (x ∷ xs) = reverse_onto (x ∷ acc) xs

-- `sortStrings`.
unfoldable pub sort_strings : List (List ℕ) → List (List ℕ)
unfolding sort_from reverse_onto
sort_strings values = reverse_onto [] (sort_from [] values)

-- No value is less than the one before it.
abbrev pub IsAscending : List (List ℕ) → Type 0
IsAscending [] = Unit
IsAscending (x ∷ []) = Unit
IsAscending (x ∷ y ∷ ys) = (text_lt y x ≡ false) × IsAscending (y ∷ ys)

-- No value is less than the one after it.
abbrev IsDescending : List (List ℕ) → Type 0
IsDescending [] = Unit
IsDescending (x ∷ []) = Unit
IsDescending (x ∷ y ∷ ys) = (text_lt x y ≡ false) × IsDescending (y ∷ ys)

-- How often a text stands in a list.
unfoldable pub occurrences : List ℕ → List (List ℕ) → ℕ
occurrences s [] = 0
occurrences s (x ∷ xs) = (if runes_eq s x then 1 else 0) + occurrences s xs

text_lt_asym : (s t : List ℕ) → text_lt s t ≡ true → text_lt t s ≡ false
unfolding text_lt
text_lt_asym s [] h = cc
text_lt_asym [] (d ∷ t) h = refl
text_lt_asym (c ∷ s) (d ∷ t) h = ground (arith, text_lt_asym s t)

tail-IsDescending : (y : List ℕ) (ys : List (List ℕ)) → IsDescending (y ∷ ys) → IsDescending ys
tail-IsDescending y [] h = tt
tail-IsDescending y (z ∷ zs) h = h.1

above-sink :
    (x y : List ℕ) (ys : List (List ℕ))
    → text_lt y x ≡ false
    → IsDescending (y ∷ ys)
    → IsDescending (sink x ys)
    → IsDescending (y ∷ sink x ys)
unfolding sink
above-sink x y [] l h d = (l, tt)
above-sink x y (z ∷ zs) l h d = elim (Bool-cases (text_lt x z)) [
  | inl below ↦ rw below (h.0, (rw below at d))
  | inr here ↦ rw here (l, (rw here at d))
]

sink-IsDescending : (x : List ℕ) (ys : List (List ℕ)) → IsDescending ys → IsDescending (sink x ys)
unfolding sink
sink-IsDescending x [] h = tt
sink-IsDescending x (y ∷ ys) h = elim (Bool-cases (text_lt x y)) [
  | inl less ↦ rw less (
      above-sink x y ys (text_lt_asym x y less) h
        (sink-IsDescending x ys (tail-IsDescending y ys h)))
  | inr more ↦ rw more (more, h)
]

sink-occurrences :
    (s x : List ℕ) (ys : List (List ℕ))
    → occurrences s (sink x ys) ≡ (if runes_eq s x then 1 else 0) + occurrences s ys
unfolding sink occurrences
sink-occurrences s x [] = refl
sink-occurrences s x (y ∷ ys) = ground (arith, sink-occurrences s x ys)

abbrev Joins : List (List ℕ) → List (List ℕ) → Type 0
Joins (a ∷ rest) (d ∷ ds) = text_lt a d ≡ false
Joins _ _ = Unit

reverse_onto-IsAscending :
    (acc down : List (List ℕ))
    → Joins acc down
    → IsAscending acc
    → IsDescending down
    → IsAscending (reverse_onto acc down)
unfolding reverse_onto
reverse_onto-IsAscending acc [] j a d = a
reverse_onto-IsAscending [] (x ∷ []) j a d = tt
reverse_onto-IsAscending [] (x ∷ y ∷ ys) j a d =
    reverse_onto-IsAscending (x ∷ []) (y ∷ ys) d.0 tt d.1
reverse_onto-IsAscending (b ∷ acc) (x ∷ []) j a d = (j, a)
reverse_onto-IsAscending (b ∷ acc) (x ∷ y ∷ ys) j a d =
    reverse_onto-IsAscending (x ∷ b ∷ acc) (y ∷ ys) d.0 (j, a) d.1

reverse_onto-occurrences :
    (s : List ℕ) (acc down : List (List ℕ))
    → occurrences s (reverse_onto acc down) ≡ occurrences s acc + occurrences s down
unfolding reverse_onto occurrences
reverse_onto-occurrences s acc [] = omega arith
reverse_onto-occurrences s acc (x ∷ xs) = omega (arith, reverse_onto-occurrences s (x ∷ acc) xs)

sort_from-IsDescending :
    (down xs : List (List ℕ)) → IsDescending down → IsDescending (sort_from down xs)
unfolding sort_from
sort_from-IsDescending down [] h = h
sort_from-IsDescending down (x ∷ xs) h =
    sort_from-IsDescending (sink x down) xs (sink-IsDescending x down h)

sort_from-occurrences :
    (s : List ℕ) (down xs : List (List ℕ))
    → occurrences s (sort_from down xs) ≡ occurrences s down + occurrences s xs
unfolding sort_from occurrences
sort_from-occurrences s down [] = omega arith
sort_from-occurrences s down (x ∷ xs) =
    omega (arith, sort_from-occurrences s (sink x down) xs, sink-occurrences s x down)

occurrences_none : (s : List ℕ) → occurrences s [] ≡ 0
unfolding occurrences
occurrences_none s = refl

-- For every list of texts, the sorted list has each text as often as the list has it, and no text in it
-- is less than the one before it.
pub sort_strings-IsAscending :
    (s : List ℕ) (values : List (List ℕ))
    → IsAscending (sort_strings values)
      × (occurrences s (sort_strings values) ≡ occurrences s values)
unfolding sort_strings
sort_strings-IsAscending s values =
    let all_in : occurrences s [] + occurrences s (sort_from [] values) ≡ occurrences s values =
      omega (arith, sort_from-occurrences s [] values, occurrences_none s) in
    (
      reverse_onto-IsAscending [] (sort_from [] values) tt tt (sort_from-IsDescending [] values tt),
      reverse_onto-occurrences s [] (sort_from [] values) ∙ all_in,
    )
