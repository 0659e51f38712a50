-- ===== src/Login/Burst.antt =====
-- A burst of wrong passwords is stopped (app/services/login_guard.py, called by `login` of
-- app/api/auth_routes.py).
use beautypos.Prelude.{
  ℕ, suc, ◌+◌, ◌-◌, ◌≤◌, ◌<◌, ◌≡◌, refl, ◌∙◌, ap, subst, ◌⊎◌, inl, inr, Bool, true, List, [], ◌∷◌,
  Option, none, some, length, arith, any, ◌||◌,
}
use beautypos.Text.{Text, text_eq}
use beautypos.Login.Guard.{
  Failures, Settings, max_attempts, lockout, forget_after, get, keys, check_key, check_keys, check,
}
use beautypos.Login.Table.{IsDict, effective, pop-IsDict}
use beautypos.Login.Lockout.{
  refused, by_email, by_ip, check_key-frame, locked-many, check-refused, record_failure-Counted,
}
use beautypos.Login.Route.{Credentials, wrong, is_too_many, verified, guarded, login, burst}

-- Each time is less than `limit` after the one before it.
abbrev pub Paced : ℕ → ℕ → List ℕ → Type 0
Paced limit t [] = Unit
Paced limit t (u ∷ ts) = (t ≤ u) × (u - t < limit) × Paced limit u ts

abbrev pub last_of : ℕ → List ℕ → ℕ
last_of t [] = t
last_of t (u ∷ ts) = last_of u ts

check_key-IsDict :
    (s : Settings) (now : ℕ) (k : Text) (m : Failures) → IsDict m → IsDict (check_key s now k m).0
unfolding check_key
check_key-IsDict s now k m d = ground (arith, pop-IsDict k m d)

check_key-recent :
    (s : Settings) (now : ℕ) (k : Text) (m : Failures)
    → now - (get m k).1 < lockout s
    → (check_key s now k m).0 ≡ m
unfolding check_key
check_key-recent s now k m h = ground arith

-- What holds after the check of the first key, and is kept by that of the second, holds after both.
both_keys {ℓ} :
    (P : Failures → Type ℓ) (s : Settings) (now : ℕ) (k j : Text) (m : Failures)
    → P (check_key s now k m).0
    → ((m' : Failures) → P m' → P (check_key s now j m').0)
    → P (check_keys s now (k ∷ j ∷ []) m).0
unfolding check_keys
both_keys P s now k j m h next = after_first (check_key s now k m) h
  where
    last_key :
        (r : Failures × Option ℕ)
        → P r.0
        → let last : Failures × Option ℕ = elim r.1 [
          | none ↦ (r.0, none)
          | some wait ↦ (r.0, some wait)
        ] in
          P last.0
    last_key (m'', none) q = q
    last_key (m'', some wait) q = q

    after_first :
        (r : Failures × Option ℕ)
        → P r.0
        → let last : Failures × Option ℕ = elim r.1 [
          | none ↦ check_keys s now (j ∷ []) r.0
          | some wait ↦ (r.0, some wait)
        ] in
          P last.0
    after_first (m', none) q = last_key (check_key s now j m') (next m' q)
    after_first (m', some wait) q = q

or_true : (a b : Bool) → b ≡ true → (a || b) ≡ true
or_true a b e = ground arith

module _ (lower : Text → Text) (s : Settings) (email : Option Text) (ip : Text) where
  check-IsDict : (now : ℕ) (m : Failures) → IsDict m → IsDict (check lower s now email ip m).0
  unfolding check keys
  check-IsDict now m d =
      both_keys IsDict s now (by_email lower email) (by_ip lower email ip) m
        (check_key-IsDict s now (by_email lower email) m d)
        (λ m'. check_key-IsDict s now (by_ip lower email ip) m')

  -- A count that has not expired is kept.
  check-get :
      (now : ℕ) (m : Failures)
      → now - (get m (by_email lower email)).1 < lockout s
      → get (check lower s now email ip m).0 (by_email lower email) ≡ get m (by_email lower email)
  unfolding check keys text_eq
  check-get now m recent =
      both_keys (λ m'. get m' (by_email lower email) ≡ get m (by_email lower email)) s now
        (by_email lower email) (by_ip lower email ip) m
        (ap (λ m'. get m' (by_email lower email))
          (check_key-recent s now (by_email lower email) m recent))
        (λ m' q. check_key-frame s now (by_ip lower email ip) (by_email lower email) m' refl ∙ q)

  -- The login is refused, or the account's count is `least` or more and has the present time.
  abbrev Stopped : ℕ → ℕ → Failures → Bool → Type 0
  Stopped now least m stopped =
      (stopped ≡ true)
      ⊎ ((n : ℕ) × ((get m (by_email lower email) ≡ (n, now)) × (least ≤ n) × IsDict m))

  guarded-Stopped :
      (now least : ℕ) (x : Failures × Option ℕ)
      → IsDict x.0
      → least ≤ suc (effective now (forget_after s) x.0 (by_email lower email))
      → Stopped now least
          (guarded lower s now email ip wrong x).0
          (is_too_many (guarded lower s now email ip wrong x).1)
  unfolding guarded verified
  guarded-Stopped now least (m, some wait) d le = inl refl
  guarded-Stopped now least (m, none) d le =
      let counted = record_failure-Counted lower s email ip now m d in
      inr (
        suc (effective now (forget_after s) m (by_email lower email)),
        (counted.first, le, counted.dict),
      )

  login-Stopped :
      (now least : ℕ) (m : Failures)
      → IsDict m
      → least
        ≤ suc
            (effective now (forget_after s) (check lower s now email ip m).0 (by_email lower email))
      → Stopped now least
          (login lower s now email ip wrong m).0
          (is_too_many (login lower s now email ip wrong m).1)
  unfolding login
  login-Stopped now least m d le =
      guarded-Stopped now least (check lower s now email ip m) (check-IsDict now m d) le

  recent_count :
      (now : ℕ) (m : Failures) (c t : ℕ)
      → get m (by_email lower email) ≡ (c, t)
      → now - t < lockout s
      → suc c
        ≤ suc
            (effective now (forget_after s) (check lower s now email ip m).0 (by_email lower email))
  recent_count now m c t e soon = rw (check-get now m (rw e soon), e) (ground arith)

  -- A login and the logins after it
  continue-Stopped :
      (u least : ℕ) (ts : List ℕ) (m : Failures)
      → Stopped u least
          (login lower s u email ip wrong m).0
          (is_too_many (login lower s u email ip wrong m).1)
      → ((n : ℕ)
          → IsDict (login lower s u email ip wrong m).0
          → get (login lower s u email ip wrong m).0 (by_email lower email) ≡ (n, u)
          → Stopped
              (last_of u ts)
              (n + length ts)
              (burst lower s email ip ts (login lower s u email ip wrong m).0).0
              (any is_too_many (burst lower s email ip ts (login lower s u email ip wrong m).0).1))
      → Stopped
          (last_of u ts)
          (least + length ts)
          (burst lower s email ip (u ∷ ts) m).0
          (any is_too_many (burst lower s email ip (u ∷ ts) m).1)
  unfolding burst
  continue-Stopped u least ts m (inl e) next = inl (rw e refl)
  continue-Stopped u least ts m (inr (n, (q, le, d))) next = elim (next n d q) [
    | inl e ↦ inl (or_true (is_too_many (login lower s u email ip wrong m).1) _ e)
    | inr (n', (q', le', d')) ↦ inr (n', (q', omega arith, d'))
  ]

  burst-Stopped :
      (ts : List ℕ) (m : Failures) (c t : ℕ)
      → IsDict m
      → get m (by_email lower email) ≡ (c, t)
      → Paced (lockout s) t ts
      → Stopped
          (last_of t ts)
          (c + length ts)
          (burst lower s email ip ts m).0
          (any is_too_many (burst lower s email ip ts m).1)
  unfolding burst
  burst-Stopped [] m c t d e p = inr (c, (e, omega arith, d))
  burst-Stopped (u ∷ ts) m c t d e p =
      subst
        (λ n.
          Stopped (last_of u ts) n (burst lower s email ip (u ∷ ts) m).0
            (any is_too_many (burst lower s email ip (u ∷ ts) m).1))
        (omega arith)
        (continue-Stopped u (suc c) ts m (login-Stopped u (suc c) m d (recent_count u m c t e p.1))
          (λ n d' q. burst-Stopped ts (login lower s u email ip wrong m).0 n u d' q p.2))

  -- A login that `check` refuses is answered so, whatever its password.
  refused-login :
      (now : ℕ) (c : Credentials) (m : Failures)
      → refused (check lower s now email ip m) ≡ true
      → is_too_many (login lower s now email ip c m).1 ≡ true
  unfolding login guarded
  refused-login now c m h = answered (check lower s now email ip m) h
    where
      answered :
          (x : Failures × Option ℕ)
          → refused x ≡ true
          → is_too_many (guarded lower s now email ip c x).1 ≡ true
      answered (m', none) h = cc
      answered (m', some wait) h = refl

  -- Of the allowed number of logins of an account from one address with wrong passwords, each less
  -- than the lock time after the one before, and the next login within the lock time, whatever its
  -- password, one at least is refused, whatever the table held before.
  pub check-burst :
      (t : ℕ) (ts : List ℕ) (now : ℕ) (c : Credentials) (m : Failures)
      → IsDict m
      → Paced (lockout s) t ts
      → max_attempts s ≤ suc (length ts)
      → now - last_of t ts < lockout s
      → (any is_too_many (burst lower s email ip (t ∷ ts) m).1 ≡ true)
        ⊎ (is_too_many (login lower s now email ip c (burst lower s email ip (t ∷ ts) m).0).1
            ≡ true)
  check-burst t ts now c m d paced enough soon =
      elim (continue-Stopped t 1 ts m (login-Stopped t 1 m d (omega arith))
        (λ n d' q. burst-Stopped ts (login lower s t email ip wrong m).0 n t d' q paced)) [
          | inl e ↦ inl e
          | inr (n, (q, le, d')) ↦
              let after = (burst lower s email ip (t ∷ ts) m).0 in
              inr (
                refused-login now c after (
                  rw
                    (
                      check-refused lower s email ip now after,
                      locked-many s now after (by_email lower email) n (last_of t ts) q
                          (omega arith) soon,
                    )
                    refl))
        ]
