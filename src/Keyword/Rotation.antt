-- ===== src/Keyword/Rotation.antt =====
-- Which keywords a day's advertising uses (app/services/ad_keyword.py).
use beautypos.Prelude.{
  ℕ, zero, suc, ◌+◌, ◌-◌, ◌%◌, ◌≤◌, ◌<◌, min, max, ◌≡◌, refl, sym, ap, ◌∙◌, Bool, Bool-cases, inl,
  inr, ◌&&◌, ◌||◌, ltb, ◌==◌, if◌then◌else◌, List, [], ◌∷◌, ◌++◌, Option, none, some, length, take,
  drop, where_, length-append, length-take, length-drop, ltb→lt, ltb→ge, tests, arith,
}
use beautypos.Calendar.{Date, toordinal}
use beautypos.Text.{Text, text_eq, is_empty}
use beautypos.Keyword.Store.{Keyword, Table, is_usable, of_merchant}

-- `.order_by(priority.asc(), id.asc())`
unfoldable pub goes_before : Keyword → Keyword → Bool
goes_before a b = ltb a.priority b.priority || (a.priority == b.priority && ltb a.id b.id)

unfoldable pub insert_by_priority : Keyword → List Keyword → List Keyword
insert_by_priority k [] = k ∷ []
insert_by_priority k (j ∷ js) =
    let rest = insert_by_priority k js in if goes_before j k then j ∷ rest else k ∷ j ∷ js

unfoldable pub by_priority : List Keyword → List Keyword
by_priority [] = []
by_priority (k ∷ ks) = insert_by_priority k (by_priority ks)

-- `if ad_type: q.filter(ad_type.in_([ad_type, AD_TYPE_ALL]))`, where `AD_TYPE_ALL` is the empty text
abbrev pub serves : Text → Keyword → Bool
serves ad_type k = is_empty ad_type || text_eq k.ad_type ad_type || is_empty k.ad_type

unfoldable pub usable_keywords : Table → ℕ → Text → List Keyword
unfolding by_priority
usable_keywords t m ad_type =
    by_priority (where_ (λ k. of_merchant m k && is_usable k && serves ad_type k) t.rows)

suc_add : (n i : ℕ) → suc n + i ≡ suc (n + i)
suc_add n i = omega arith

module _ {ℓ} {A : Type ℓ} where
  abbrev pub get_elem? : List A → ℕ → Option A
  get_elem? [] i = none
  get_elem? (x ∷ xs) zero = some x
  get_elem? (x ∷ xs) (suc i) = get_elem? xs i

  -- A count of 0 or less picks one.
  unfoldable pub pick_for_date : List A → Date → ℕ → List A
  pick_for_date [] target count = []
  pick_for_date (x ∷ xs) target count =
      let n = length (x ∷ xs) in
      let offset = toordinal target % n in
      let rotated = drop offset (x ∷ xs) ++ take offset (x ∷ xs) in
      take (max 1 (min count n)) rotated

  get-append_left :
      (xs ys : List A) (i : ℕ) → i < length xs → get_elem? (xs ++ ys) i ≡ get_elem? xs i
  get-append_left [] ys i h = absurd (omega arith)
  get-append_left (x ∷ xs) ys zero h = refl
  get-append_left (x ∷ xs) ys (suc i) h = get-append_left xs ys i (omega arith)

  get-append_right :
      (xs ys : List A) (i : ℕ) → get_elem? (xs ++ ys) (length xs + i) ≡ get_elem? ys i
  get-append_right [] ys i = ap (get_elem? ys) (omega arith)
  get-append_right (x ∷ xs) ys i =
      ap (get_elem? (x ∷ (xs ++ ys))) (suc_add (length xs) i) ∙ get-append_right xs ys i

  get-drop : (n : ℕ) (xs : List A) (i : ℕ) → get_elem? (drop n xs) i ≡ get_elem? xs (n + i)
  get-drop zero xs i = ap (get_elem? xs) (omega arith)
  get-drop (suc n) [] i = refl
  get-drop (suc n) (x ∷ xs) i = get-drop n xs i ∙ ap (get_elem? (x ∷ xs)) (sym (suc_add n i))

  get-take : (n : ℕ) (xs : List A) (i : ℕ) → i < n → get_elem? (take n xs) i ≡ get_elem? xs i
  get-take zero xs i h = absurd (omega arith)
  get-take (suc n) [] i h = refl
  get-take (suc n) (x ∷ xs) zero h = refl
  get-take (suc n) (x ∷ xs) (suc i) h = get-take n xs i (omega arith)

mod_bound : (a n : ℕ) → 0 < n → a % n < n
mod_bound a n h = grind arith

mod_before : (a i n : ℕ) → a % n + i < n → (a + i) % n ≡ a % n + i
mod_before a i n h = grind arith

mod_after : (a i n : ℕ) → i < n → n ≤ a % n + i → (a + i) % n ≡ a % n + i - n
mod_after a i n h k = grind arith

module _ {ℓ} {A : Type ℓ} where
  get-rotated :
      (off i : ℕ) (xs : List A)
      → off < length xs
      → i < length xs
      → get_elem? (drop off xs ++ take off xs) i ≡ (
          if ltb (off + i) (length xs)
          then get_elem? xs (off + i)
          else get_elem? xs (off + i - length xs))
  get-rotated off i xs h k = elim (Bool-cases (ltb (off + i) (length xs))) [
    | inl e ↦ rw e (
        get-append_left (drop off xs) (take off xs) i (omega (tests, e, length-drop off xs))
        ∙ get-drop off xs i)
    | inr e ↦
        let place : i ≡ length (drop off xs) + (off + i - length xs) =
          omega (arith, ltb→ge (off + i) (length xs) e, length-drop off xs) in
        rw e (
          ap (get_elem? (drop off xs ++ take off xs)) place
          ∙ get-append_right (drop off xs) (take off xs) (off + i - length xs)
          ∙ get-take off xs (off + i - length xs) (omega (arith, ltb→ge (off + i) (length xs) e)))
  ]

  get-rotated_mod :
      (a i : ℕ) (xs : List A)
      → i < length xs
      → get_elem? (drop (a % length xs) xs ++ take (a % length xs) xs) i
        ≡ get_elem? xs ((a + i) % length xs)
  get-rotated_mod a i xs k =
      let off = a % length xs in
      let bound : off < length xs = mod_bound a (length xs) (omega arith) in
      elim (Bool-cases (ltb (off + i) (length xs))) [
        | inl e ↦
            get-rotated off i xs bound k
            ∙ rw (e, mod_before a i (length xs) (ltb→lt (off + i) (length xs) e)) refl
        | inr e ↦
            get-rotated off i xs bound k
            ∙ rw (e, mod_after a i (length xs) k (ltb→ge (off + i) (length xs) e)) refl
      ]

  -- On a day as many keywords are picked as are asked for, at least one and at most all, and the one
  -- at a place is the keyword that lies the day's ordinal number and that place further on in the
  -- circle: a day later each place has the next keyword.
  pub get-pick_for_date :
      (x : A) (xs : List A) (d : Date) (count i : ℕ)
      → i < max 1 (min count (length (x ∷ xs)))
      → (length (pick_for_date (x ∷ xs) d count) ≡ max 1 (min count (length (x ∷ xs))))
        × (get_elem? (pick_for_date (x ∷ xs) d count) i
            ≡ get_elem? (x ∷ xs) ((toordinal d + i) % length (x ∷ xs)))
  unfolding pick_for_date
  get-pick_for_date x xs d count i h =
      let ys = x ∷ xs in
      let off = toordinal d % length ys in
      let bound : off < length ys = mod_bound (toordinal d) (length ys) (omega arith) in
      (
        omega (
          arith,
          bound,
          length-take (max 1 (min count (length ys))) (drop off ys ++ take off ys),
          length-append (drop off ys) (take off ys),
          length-drop off ys,
          length-take off ys,
        ),
        get-take (max 1 (min count (length ys))) (drop off ys ++ take off ys) i h
            ∙ get-rotated_mod (toordinal d) i ys (omega arith),
      )
