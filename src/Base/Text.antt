-- ===== src/Base/Text.antt =====
-- The functions of Go's strings package that the program calls: `strings.TrimSpace` on native
-- texts, and searches on lists of code points (runes).
use Prim.Native.Char.{Char, code}
use Prim.Native.String.{String}
use Prim.Native.Nat.{ℕ, zero, suc, ◌+◌, ◌*◌, ◌-◌}
use mathlib.Core.Path.{◌≡◌, refl}
use mathlib.Core.Logic.{inl, inr}
use mathlib.Core.Bool.{Bool, true, false, ◌||◌, ◌&&◌}
use mathlib.Core.List.{List, [], ◌∷◌, ◌++◌}
use mathlib.Core.Option.{Option, none, some}
use workbuddy_cpa_plugin.Base.Int.{ℤ, pos, negsuc}
use native.Mathlib.Omega.{arith}
use workbuddy_cpa_plugin.Base.Tests.{leb, ltb, if◌then◌else◌, ◌==◌, nat_eq, Bool-cases}

-- unicode.IsSpace.
pub is_space : ℕ → Bool
is_space c =
    (leb 9 c && leb c 13)
    || c == 32
    || c == 0x85
    || c == 0xa0
    || c == 0x1680
    || (leb 0x2000 c && leb c 0x200a)
    || c == 0x2028
    || c == 0x2029
    || c == 0x202f
    || c == 0x205f
    || c == 0x3000

abbrev pub is_empty : String → Bool
is_empty String.[] = true
is_empty (String.◌∷◌ c s) = false

trim_left : String → String
trim_left String.[] = ""
trim_left (String.◌∷◌ c s) =
    let rest = trim_left s in if is_space (code c) then rest else String.◌∷◌ c s

-- A character that nothing but spaces follows is dropped if it is a space.
abbrev keep_unless_blank : Char → String → String
keep_unless_blank c rest = if is_empty rest && is_space (code c) then "" else String.◌∷◌ c rest

trim_right : String → String
trim_right String.[] = ""
trim_right (String.◌∷◌ c s) = keep_unless_blank c (trim_right s)

unfoldable pub trim_space : String → String
unfolding trim_left trim_right is_space
trim_space s = trim_right (trim_left s)

trim_right_idem : (s : String) → trim_right (trim_right s) ≡ trim_right s
unfolding trim_right
trim_right_idem String.[] = refl
trim_right_idem (String.◌∷◌ c s) = ground (arith, trim_right_idem s)

trim_left-keep :
    (c : Char) (s : String)
    → is_space (code c) ≡ false
    → trim_left (trim_right (String.◌∷◌ c s)) ≡ trim_right (String.◌∷◌ c s)
unfolding trim_left trim_right
trim_left-keep c s h = ground arith

trim_left-right : (s : String) → trim_left (trim_right (trim_left s)) ≡ trim_right (trim_left s)
unfolding trim_left
trim_left-right String.[] = unfold trim_right in refl
trim_left-right (String.◌∷◌ c s) = elim (Bool-cases (is_space (code c))) [
  | inl blank ↦ rw blank (trim_left-right s)
  | inr solid ↦ rw solid (trim_left-keep c s solid)
]

-- A trimmed text stays as it is.
pub trim_space_idem : (s : String) → trim_space (trim_space s) ≡ trim_space s
unfolding trim_space
trim_space_idem s = rw (trim_left-right s) (trim_right_idem (trim_left s))

-- The code points of a text.
abbrev pub codes : String → List ℕ
codes String.[] = []
codes (String.◌∷◌ c s) = code c ∷ codes s

-- strings.HasPrefix and strings.Contains.
unfoldable pub has_prefix : List ℕ → List ℕ → Bool
has_prefix s [] = true
has_prefix [] (p ∷ ps) = false
has_prefix (c ∷ s) (p ∷ ps) = c == p && has_prefix s ps

unfoldable pub contains : List ℕ → List ℕ → Bool
unfolding has_prefix
contains [] p = has_prefix [] p
contains (c ∷ s) p = has_prefix (c ∷ s) p || contains s p

unfoldable pub is_suffix : List ℕ → List ℕ → Bool
unfolding has_prefix
is_suffix [] p = has_prefix [] p
is_suffix (c ∷ s) p = (has_prefix (c ∷ s) p && has_prefix p (c ∷ s)) || is_suffix s p

-- strings.ToLower: ASCII letters by the code, other runes by the Unicode tables.
unfoldable pub to_lower : (ℕ → ℕ) → List ℕ → List ℕ
to_lower unicode [] = []
to_lower unicode (c ∷ s) =
    (if ltb c 128 then (if leb b'A' c && leb c b'Z' then c + 32 else c) else unicode c)
    ∷ to_lower unicode s

-- strings.Join.
unfoldable pub join : List ℕ → List (List ℕ) → List ℕ
join sep [] = []
join sep (s ∷ []) = s
join sep (s ∷ t ∷ ts) = s ++ (sep ++ join sep (t ∷ ts))

-- The digits of strconv.ParseInt in base ten: at least one, and nothing else.
digits_from : ℕ → List ℕ → Option ℕ
digits_from acc [] = some acc
digits_from acc (c ∷ s) =
    let rest = digits_from (acc * 10 + (c - 48)) s in
    if leb b'0' c && leb c b'9' then rest else none

abbrev digits : List ℕ → Option ℕ
digits [] = none
digits (c ∷ s) = digits_from 0 (c ∷ s)

abbrev in_range : ℕ → (ℕ → ℤ) → Option ℕ → Option ℤ
in_range limit sign none = none
in_range limit sign (some n) = if leb n limit then some (sign n) else none

abbrev negate : ℕ → ℤ
negate zero = pos 0
negate (suc n) = negsuc n

-- strconv.ParseInt(s, 10, 64), with `none` for an error.
unfoldable pub parse_int64 : List ℕ → Option ℤ
unfolding digits_from
parse_int64 [] = none
parse_int64 (c ∷ s) =
    if c == b'-'
    then in_range 9_223_372_036_854_775_808 negate (digits s)
    else if c == b'+'
    then in_range 9_223_372_036_854_775_807 pos (digits s)
    else in_range 9_223_372_036_854_775_807 pos (digits (c ∷ s))

-- Equality of texts as rune lists.
unfoldable pub runes_eq : List ℕ → List ℕ → Bool
runes_eq [] [] = true
runes_eq (c ∷ s) (d ∷ t) = c == d && runes_eq s t
runes_eq _ _ = false
