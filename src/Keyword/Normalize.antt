-- ===== src/Keyword/Normalize.antt =====
-- The normal form of a keyword and of an advertising type (app/services/ad_keyword.py).
use beautypos.Prelude.{
  ℕ, Bool, false, ltb, if◌then◌else◌, List, [], ◌∷◌, Option, length, any, Result, ok, err, ◌>>◌,
  raise_if,
}
use beautypos.Text.{Text, is_space, strip, or_empty, is_empty, text_eq, codes}

pub data Error : Type 0 where
  keyword_missing keyword_too_long : Error
  ad_type_unknown : Error
  not_found : Error
  too_many_keywords already_registered : Error

abbrev pub keyword_max_length : ℕ
keyword_max_length = 60

abbrev pub starts_space : Text → Bool
starts_space [] = false
starts_space (c ∷ s) = is_space c

-- `re.sub(r"\s+", " ", s)`: of a run of white space the last character becomes one space.
unfoldable pub collapse : Text → Text
collapse [] = []
collapse (c ∷ s) =
    let rest = collapse s in
    if is_space c then if starts_space s then rest else b' ' ∷ rest else c ∷ rest

unfoldable pub normalize_keyword : Option Text → Result Error Text
normalize_keyword raw = do
  let text = collapse (strip (or_empty raw))
  raise_if (is_empty text) keyword_missing
  raise_if (ltb keyword_max_length (length text)) keyword_too_long
  ok text

-- `AD_EXECUTION_TYPE_CODES`
abbrev pub ad_execution_type_codes : List Text
ad_execution_type_codes =
    codes "blog_review" ∷ codes "receipt_review" ∷ codes "place_traffic" ∷ codes "shorts" ∷ []

-- `AD_TYPE_ALL`: for every kind of advertising.
abbrev pub ad_type_all : Text
ad_type_all = []

unfoldable pub normalize_ad_type : Option Text → Result Error Text
normalize_ad_type raw =
    let text = strip (or_empty raw) in
    if is_empty text
    then ok ad_type_all
    else if any (text_eq text) ad_execution_type_codes
    then ok text
    else err ad_type_unknown
