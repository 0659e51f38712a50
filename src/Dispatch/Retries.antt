-- ===== src/Dispatch/Retries.antt =====
-- Retries end (`retry` of app/services/ad_dispatch.py and its route): a row is tried again three times
-- at most.
use beautypos.Prelude.{
  ℕ, suc, ◌+◌, ◌-◌, ◌<◌, ◌≤◌, ◌≡◌, refl, sym, ap, subst, ◌∙◌, inl, inr, Bool, true, false, ◌&&◌,
  not, ltb, ◌==◌, Bool-cases, Option-cases, if◌then◌else◌, List, [], ◌∷◌, Option, none, some,
  ==_iff, ltb→lt, arith,
}
use beautypos.Dispatch.State.{
  Row, Db, find_row, update_row, max_retry, retryable, is_failed, is_manual_source,
}
use beautypos.Dispatch.Config.{Setting}
use beautypos.Dispatch.Provider.{Provider}
use beautypos.Dispatch.Rows.{bump_retry}
use beautypos.Dispatch.Execute.{dispatch_one, write}
use beautypos.Dispatch.Orders.{retry, retry_item, retry_dispatch, row_or_raised}
use beautypos.Dispatch.Spent.{Has, spent, head_of, dispatch_one-Has}

-- How many retries the row of an id has left; a row that is missing has none.
unfoldable pub left : ℕ → List Row → ℕ
unfolding find_row
left i rows = elim (find_row i rows) [ none ↦ 0 | some r ↦ max_retry - r.retry_count ]

find_row-id : (i : ℕ) (rows : List Row) (r : Row) → find_row i rows ≡ some r → r.id ≡ i
unfolding find_row
find_row-id i [] r h = cc
find_row-id i (q ∷ qs) r h = elim (Bool-cases (q.id == i)) [
  | inl e ↦ ap (λ (x : Row). x.id) (sym (head_of q r (rw e at h))) ∙ (==_iff q.id i).0 e
  | inr e ↦ find_row-id i qs r (rw e at h)
]

bump-Has :
    (i : ℕ) (rows : List Row) (r : Row)
    → find_row i rows ≡ some r
    → r.retry_count < max_retry
    → Has i (suc r.retry_count) (update_row i bump_retry rows)
unfolding find_row update_row bump_retry
bump-Has i [] r h low = cc
bump-Has i (q ∷ qs) r h low = elim (Bool-cases (q.id == i)) [
  | inl e ↦
      let here : q ≡ r = head_of q r (rw e at h) in
      rw e (
        bump_retry q,
        (
          rw e refl,
          subst (λ (x : Row). suc x.retry_count ≤ spent (bump_retry q)) here
              (omega (arith, subst (λ (x : Row). x.retry_count < max_retry) (sym here) low)),
        ),
      )
  | inr e ↦ rw (e, e) (bump-Has i qs r (rw e at h) low)
]

retryable-parts :
    (r : Row) → retryable r ≡ true → (is_failed r.status ≡ true) × (r.retry_count < max_retry)
unfolding retryable
retryable-parts r h =
    let a = not (is_manual_source r.source) in
    let b = is_failed r.status in
    let c = ltb r.retry_count max_retry in
    (second a b c h, ltb→lt r.retry_count max_retry (third a b c h))
  where
    second : (a b c : Bool) → (a && (b && c)) ≡ true → b ≡ true
    second a b c h = ground arith

    third : (a b c : Bool) → (a && (b && c)) ≡ true → c ≡ true
    third a b c h = ground arith

-- Whether the route lets a retry of the row through
unfoldable pub is_let_through : ℕ → Db → Bool
unfolding find_row retryable
is_let_through i db = elim (find_row i db.rows) [ none ↦ false | some r ↦ retryable r ]

-- A retry of the row, with the settings and the provider's answers at its time
pub record Attempt : Type 0 where
  pub setting : Setting
  pub provider : Provider
  pub now : ℕ

-- How many of a sequence of retries of the row of an id the route lets through
unfoldable pub passes : List Attempt → Db → ℕ → ℕ
unfolding is_let_through retry_dispatch
passes [] db i = 0
passes (a ∷ as_) db i =
    (if is_let_through i db then 1 else 0)
    + passes as_ (retry_dispatch a.setting a.provider a.now db i).0 i

left-Has : (i n : ℕ) (rows : List Row) → Has i n rows → left i rows ≤ max_retry - n
unfolding left
left-Has i n rows (r, (e, h)) = rw (e, left) (omega (arith, h))

-- A retry uses up one of those that are left if it is let through, and changes nothing otherwise.
retry-left :
    (s : Setting) (p : Provider) (now : ℕ) (db : Db) (i : ℕ)
    → (if is_let_through i db then 1 else 0) + left i (retry_dispatch s p now db i).0.rows
      ≤ left i db.rows
unfolding is_let_through retry_dispatch left retry
retry-left s p now db i = elim (Option-cases (find_row i db.rows)) [
  | inl e ↦ rw (e, is_let_through, retry_dispatch, left, e) (omega arith)
  | inr (r, e) ↦ elim (Bool-cases (retryable r)) [
    | inr t ↦ rw (e, is_let_through, retry_dispatch, left, t, e) (omega arith)
    | inl t ↦
        let (failed_, low) = retryable-parts r t in
        let item = retry_item s r in
        let bumped = write db r.id bump_retry in
        let sent = dispatch_one s p now bumped item r.execution_date false in
        let start : Has i (suc r.retry_count) bumped.rows =
          rw (find_row-id i db.rows r e) (bump-Has i db.rows r e low) in
        let after =
          left-Has i (suc r.retry_count) sent.0.rows
            (dispatch_one-Has s p now bumped item r.execution_date i (suc r.retry_count) start) in
        let before : left i db.rows ≡ max_retry - r.retry_count = rw (e, left) refl in
        rw (e, is_let_through, retry_dispatch, t, failed_, unwrapped sent)
          (omega (arith, after, low, before))
  ]
]
  where
    unwrapped : (x : Db × Option Row) → (row_or_raised x).0 ≡ x.0
    unwrapped (d, none) = refl
    unwrapped (d, some r) = refl

passes-left : (as_ : List Attempt) (db : Db) (i : ℕ) → passes as_ db i ≤ left i db.rows
unfolding passes
passes-left [] db i = omega arith
passes-left (a ∷ as_) db i = omega (
  arith,
  retry-left a.setting a.provider a.now db i,
  passes-left as_ (retry_dispatch a.setting a.provider a.now db i).0 i,
)

-- However often a row is tried again, with whatever settings and answers of the provider, the route
-- lets three of the retries through at most.
pub passes-bound : (as_ : List Attempt) (db : Db) (i : ℕ) → passes as_ db i ≤ max_retry
unfolding left
passes-bound as_ db i = omega (arith, passes-left as_ db i, left_bound i db.rows)
  where
    left_bound : (i : ℕ) (rows : List Row) → left i rows ≤ 3
    left_bound i rows = elim (Option-cases (find_row i rows)) [
      | inl e ↦ rw (e, left) (omega arith)
      | inr (r, e) ↦ rw (e, left) (omega arith)
    ]
