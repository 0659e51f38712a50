-- ===== src/Text.antt =====
-- Python texts as lists of code points: `strip`, `[:n]`, and the empty text as `None`.
use beautypos.Prelude.{
  ℕ, Bool, true, false, ◌||◌, ◌&&◌, leb, ◌==◌, List, [], ◌∷◌, Option, none, some, take,
  if◌then◌else◌, ◌≡◌, ◌↔◌, refl, subst, arith,
}
use mathlib.Core.List.{reverse}
use Prim.Native.Char.{code}
use Prim.Native.String.{String}

abbrev pub Text : Type 0
Text = List ℕ

-- The characters that `str.isspace`, `str.strip` and the pattern `\s` take for white space.
unfoldable pub is_space : ℕ → Bool
is_space c =
    (leb 9 c && leb c 13)
    || (leb 28 c && leb c 32)
    || c == 0x85
    || c == 0xa0
    || c == 0x1680
    || (leb 0x2000 c && leb c 0x200a)
    || c == 0x2028
    || c == 0x2029
    || c == 0x202f
    || c == 0x205f
    || c == 0x3000

unfoldable pub left_strip : Text → Text
left_strip [] = []
left_strip (c ∷ s) = if is_space c then left_strip s else c ∷ s

abbrev pub is_empty : Text → Bool
is_empty [] = true
is_empty (c ∷ s) = false

unfoldable pub right_strip : Text → Text
right_strip [] = []
right_strip (c ∷ s) =
    let rest = right_strip s in if is_space c && is_empty rest then [] else c ∷ rest

unfoldable pub strip : Text → Text
unfolding left_strip right_strip
strip s = right_strip (left_strip s)

-- `s or None`
abbrev pub or_none : Text → Option Text
or_none [] = none
or_none (c ∷ s) = some (c ∷ s)

-- `s or ""`
abbrev pub or_empty : Option Text → Text
or_empty none = []
or_empty (some s) = s

-- `(raw or "").strip()[:255] or None`
unfoldable pub clean : Option Text → Option Text
clean raw = or_none (take 255 (strip (or_empty raw)))

unfoldable pub text_eq : Text → Text → Bool
text_eq [] [] = true
text_eq (c ∷ s) (d ∷ t) = c == d && text_eq s t
text_eq _ _ = false

-- The code points of a literal.
abbrev pub codes : String → Text
codes String.[] = []
codes (String.◌∷◌ c s) = code c ∷ codes s

-- `s.split(sep)`: the pieces between the separators, one more than there are separators.
unfoldable pub split_from : ℕ → Text → Text → List Text
split_from sep piece [] = reverse piece ∷ []
split_from sep piece (c ∷ s) = elim (c == sep) [
  | true ↦ reverse piece ∷ split_from sep [] s
  | false ↦ split_from sep (c ∷ piece) s
]

unfoldable pub split : ℕ → Text → List Text
unfolding split_from
split sep s = split_from sep [] s

pub text_eq_iff : (s t : Text) → (text_eq s t ≡ true) ↔ (s ≡ t)
unfolding text_eq
text_eq_iff s t = (to s t, from s t)
  where
    to : (s t : Text) → text_eq s t ≡ true → s ≡ t
    to [] [] h = refl
    to [] (d ∷ t) h = cc
    to (c ∷ s) [] h = cc
    to (c ∷ s) (d ∷ t) h = ground (arith, to s t)

    from : (s t : Text) → s ≡ t → text_eq s t ≡ true
    from s t e = subst (λ u. text_eq s u ≡ true) e (same s)
      where
        same : (s : Text) → text_eq s s ≡ true
        same [] = refl
        same (c ∷ s) = ground (arith, same s)

pub text_eq_refl : (s : Text) → text_eq s s ≡ true
text_eq_refl s = (text_eq_iff s s).1 refl
