-- ===== src/Keyword/NormalForm.antt =====
-- What a normalised keyword looks like (app/services/ad_keyword.py).
use beautypos.Prelude.{
  ℕ, ◌≤◌, ◌≡◌, refl, subst, ◌∙◌, Bool, true, false, Bool-cases, inl, inr, not, ◌&&◌, ◌==◌, ltb,
  if◌then◌else◌, [], ◌∷◌, Option, some, length, Result, ok, err, arith,
}
use beautypos.Text.{Text, is_space, left_strip, right_strip, strip, or_empty, is_empty}
use beautypos.Keyword.Normalize.{
  Error, keyword_max_length, starts_space, collapse, normalize_keyword,
}

abbrev pub ends_space : Text → Bool
ends_space [] = false
ends_space (c ∷ s) = if is_empty s then is_space c else ends_space s

-- White space stands as single spaces only.
abbrev pub single : Text → Bool
single [] = true
single (c ∷ s) = (if is_space c then c == b' ' && not (starts_space s) else true) && single s

left_strip-starts : (s : Text) → starts_space (left_strip s) ≡ false
unfolding left_strip
left_strip-starts [] = refl
left_strip-starts (c ∷ s) = ground (arith, left_strip-starts s)

right_strip-ends : (s : Text) → ends_space (right_strip s) ≡ false
unfolding right_strip
right_strip-ends [] = refl
right_strip-ends (c ∷ s) = ground (arith, right_strip-ends s)

right_strip-starts : (s : Text) → starts_space s ≡ false → starts_space (right_strip s) ≡ false
unfolding right_strip
right_strip-starts [] h = refl
right_strip-starts (c ∷ s) h = ground arith

space_is_space : is_space b' ' ≡ true
unfolding is_space
space_is_space = refl

starts_nonempty : (s : Text) → starts_space s ≡ true → is_empty s ≡ false
starts_nonempty [] h = cc
starts_nonempty (c ∷ s) h = refl

starts-collapse : (s : Text) → starts_space (collapse s) ≡ starts_space s
unfolding collapse
starts-collapse [] = refl
starts-collapse (c ∷ s) = ground (arith, space_is_space, starts-collapse s)

is_empty-collapse : (s : Text) → is_empty (collapse s) ≡ is_empty s
unfolding collapse
is_empty-collapse [] = refl
is_empty-collapse (c ∷ []) = ground arith
is_empty-collapse (c ∷ d ∷ s) = ground (arith, is_empty-collapse (d ∷ s))

ends-collapse : (s : Text) → ends_space (collapse s) ≡ ends_space s
unfolding collapse
ends-collapse [] = refl
ends-collapse (c ∷ s) =
    ground (arith, space_is_space, is_empty-collapse s, starts_nonempty s, ends-collapse s)

single-collapse : (s : Text) → single (collapse s) ≡ true
unfolding collapse
single-collapse [] = refl
single-collapse (c ∷ s) = ground (arith, space_is_space, starts-collapse s, single-collapse s)

left_strip-same : (s : Text) → starts_space s ≡ false → left_strip s ≡ s
unfolding left_strip
left_strip-same [] h = refl
left_strip-same (c ∷ s) h = rw h refl

right_strip-same : (s : Text) → ends_space s ≡ false → right_strip s ≡ s
unfolding right_strip
right_strip-same [] h = refl
right_strip-same (c ∷ s) h = ground (arith, right_strip-same s)

collapse-same : (s : Text) → single s ≡ true → collapse s ≡ s
unfolding collapse
collapse-same [] h = refl
collapse-same (c ∷ s) h = ground (arith, collapse-same s)

-- A normal keyword: 1 to 60 characters, no white space at either end, and single spaces within.
pub record IsNormal (s : Text) : Type 0 where
  pub shown : is_empty s ≡ false
  pub short : length s ≤ keyword_max_length
  pub starts : starts_space s ≡ false
  pub ends : ends_space s ≡ false
  pub single_spaces : single s ≡ true

abbrev pub NormalOrRaised : Result Error Text → Type 0
NormalOrRaised (ok s) = IsNormal s
NormalOrRaised (err e) = Unit

-- What `normalize_keyword` returns is normal.
pub normalize_keyword-IsNormal : (raw : Option Text) → NormalOrRaised (normalize_keyword raw)
unfolding normalize_keyword strip
normalize_keyword-IsNormal raw = elim (Bool-cases (is_empty text)) [
  | inl e ↦ rw e tt
  | inr e ↦ elim (Bool-cases (ltb keyword_max_length (length text))) [
    | inl f ↦ rw (e, f) tt
    | inr f ↦
        rw (e, f)
          (record {
            shown = e;
            short = ground (arith, f);
            starts =
                starts-collapse (right_strip (left_strip (or_empty raw)))
                ∙ right_strip-starts (left_strip (or_empty raw)) (left_strip-starts (or_empty raw));
            ends =
                ends-collapse (right_strip (left_strip (or_empty raw)))
                ∙ right_strip-ends (left_strip (or_empty raw));
            single_spaces = single-collapse (right_strip (left_strip (or_empty raw)));
          })
  ]
]
  where
    text : Text
    text = collapse (right_strip (left_strip (or_empty raw)))

-- A normal keyword is its own normal form.
pub normalize_keyword-same : (s : Text) → IsNormal s → normalize_keyword (some s) ≡ ok s
unfolding normalize_keyword strip
normalize_keyword-same s n = rw (left_strip-same s n.starts) (
    rw (right_strip-same s n.ends)
      (rw (collapse-same s n.single_spaces) (rw n.shown (rw (not_long (length s) n.short) refl))))
  where
    not_long : (k : ℕ) → k ≤ keyword_max_length → ltb keyword_max_length k ≡ false
    not_long k h = ground arith

-- Normalising is idempotent, so two spellings that normalise alike are one keyword.
pub normalize_keyword-idempotent :
    (raw : Option Text) (s : Text)
    → normalize_keyword raw ≡ ok s
    → normalize_keyword (some s) ≡ ok s
normalize_keyword-idempotent raw s e =
    normalize_keyword-same s (subst NormalOrRaised e (normalize_keyword-IsNormal raw))
