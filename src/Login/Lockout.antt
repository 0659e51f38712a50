-- ===== src/Login/Lockout.antt =====
-- When the guard refuses a login (app/services/login_guard.py).
use beautypos.Prelude.{
  ℕ, suc, ◌-◌, ◌≤◌, ◌<◌, ◌≡◌, refl, ◌∙◌, Bool, true, false, not, ltb, leb, if◌then◌else◌, [], ◌∷◌,
  Option, none, some, arith, ◌&&◌, ◌||◌,
}
use beautypos.Text.{Text, text_eq, text_eq_refl, strip, or_empty}
use beautypos.Login.Guard.{
  Failures, Settings, max_attempts, lockout, forget_after, get, pop, prune, email_key, ip_key, keys,
  check_key, check_keys, check, count_failure, count_failures, record_failure, record_success,
}
use beautypos.Login.Table.{
  IsDict, get-put, get-pop, put-IsDict, effective, prune-effective, prune-IsDict,
}

-- A key is locked: enough failures, the last of them within the lock time.
abbrev pub locked : Settings → ℕ → Failures → Text → Bool
locked s now m k =
    not (ltb (get m k).0 (max_attempts s)) && not (leb (lockout s) (now - (get m k).1))

abbrev pub refused : Failures × Option ℕ → Bool
refused (m, none) = false
refused (m, some wait) = true

check_key-locked :
    (s : Settings) (now : ℕ) (k : Text) (m : Failures)
    → refused (check_key s now k m) ≡ locked s now m k
unfolding check_key
check_key-locked s now k m = ground arith

-- The other key is read as before: only an expired key is removed.
pub check_key-frame :
    (s : Settings) (now : ℕ) (k j : Text) (m : Failures)
    → text_eq k j ≡ false
    → get (check_key s now k m).0 j ≡ get m j
unfolding check_key
check_key-frame s now k j m ne = ground (arith, get-pop k j m)

locked-same :
    (s : Settings) (now : ℕ) (m m' : Failures) (k : Text)
    → get m' k ≡ get m k
    → locked s now m' k ≡ locked s now m k
locked-same s now m m' k e = rw e refl

after_first :
    (s : Settings) (now : ℕ) (k j : Text) (m : Failures) (first : Failures × Option ℕ)
    → refused first ≡ locked s now m k
    → get first.0 j ≡ get m j
    → refused (elim first.1 [
      | none ↦ check_keys s now (j ∷ []) first.0
      | some wait ↦ (first.0, some wait)
    ])
      ≡ (locked s now m k || locked s now m j)
unfolding check_keys
after_first s now k j m (m', some wait) e frame = rw (← e) refl
after_first s now k j m (m', none) e frame =
    rw (← e) (
      last_key (check_key s now j m')
        (check_key-locked s now j m' ∙ locked-same s now m m' j frame))
  where
    last_key :
        (r : Failures × Option ℕ)
        → refused r ≡ locked s now m j
        → refused (elim r.1 [ none ↦ (r.0, none) | some wait ↦ (r.0, some wait) ])
          ≡ locked s now m j
    last_key (m'', none) q = q
    last_key (m'', some wait) q = q

check_pair :
    (s : Settings) (now : ℕ) (k j : Text) (m : Failures)
    → text_eq k j ≡ false
    → refused (check_keys s now (k ∷ j ∷ []) m) ≡ (locked s now m k || locked s now m j)
unfolding check_keys
check_pair s now k j m ne =
    after_first s now k j m (check_key s now k m) (check_key-locked s now k m)
      (check_key-frame s now k j m ne)

count_failure-get :
    (s : Settings) (now : ℕ) (k j : Text) (m : Failures)
    → get (count_failure s now k m) j
      ≡ (if text_eq k j then (suc (effective now (forget_after s) m k), now) else get m j)
unfolding count_failure
count_failure-get s now k j m = get-put k j (suc (effective now (forget_after s) m k), now) m

count_failure-IsDict :
    (s : Settings) (now : ℕ) (k : Text) (m : Failures) → IsDict m → IsDict (count_failure s now k m)
unfolding count_failure
count_failure-IsDict s now k m = put-IsDict k (suc (effective now (forget_after s) m k), now) m

-- What one failure does to two keys that differ: both count it on top of what is not forgotten.
pub record Counted (s : Settings) (now : ℕ) (k j : Text) (m after : Failures) : Type 0 where
  pub first : get after k ≡ (suc (effective now (forget_after s) m k), now)
  pub second : get after j ≡ (suc (effective now (forget_after s) m j), now)
  pub dict : IsDict after

count_pair :
    (s : Settings) (now : ℕ) (k j : Text) (m : Failures)
    → text_eq k j ≡ false
    → text_eq j k ≡ false
    → IsDict m
    → Counted s now k j m (count_failures s now (k ∷ j ∷ []) (prune now (forget_after s) m))
unfolding count_failures
count_pair s now k j m kj jk d = record {
  first =
      rw
        (
          count_failure-get s now j k (count_failure s now k pruned),
          jk,
          count_failure-get s now k k pruned,
          text_eq_refl k,
          prune-effective now (forget_after s) m k d,
        )
        refl;
  second =
      rw
        (
          count_failure-get s now j j (count_failure s now k pruned),
          text_eq_refl j,
          count_failure-get s now k j pruned,
          kj,
          prune-effective now (forget_after s) m j d,
        )
        refl;
  dict =
      count_failure-IsDict s now j _
        (count_failure-IsDict s now k _ (prune-IsDict now (forget_after s) m d));
}
  where
    pruned : Failures
    pruned = prune now (forget_after s) m

abbrev pub by_email : (Text → Text) → Option Text → Text
by_email lower email = email_key (lower (strip (or_empty email)))

abbrev pub by_ip : (Text → Text) → Option Text → Text → Text
by_ip lower email ip = ip_key ip (lower (strip (or_empty email)))

locked-none :
    (s : Settings) (now : ℕ) (m : Failures) (k : Text) → get m k ≡ (0, 0) → locked s now m k ≡ false
locked-none s now m k e = rw e (ground arith)

pub locked-many :
    (s : Settings) (now : ℕ) (m : Failures) (k : Text) (n last : ℕ)
    → get m k ≡ (n, last)
    → max_attempts s ≤ n
    → now - last < lockout s
    → locked s now m k ≡ true
locked-many s now m k n last e enough soon = rw e (ground arith)

locked-expired :
    (s : Settings) (now : ℕ) (m : Failures) (k : Text)
    → lockout s ≤ now - (get m k).1
    → locked s now m k ≡ false
locked-expired s now m k h = ground arith

module _ (lower : Text → Text) (s : Settings) (email : Option Text) (ip : Text) where
  -- A login is refused exactly if the key of the account, or of the account at the address, is
  -- locked: it has the allowed number of failures and the last of them lies within the lock time.
  pub check-refused :
      (now : ℕ) (m : Failures)
      → refused (check lower s now email ip m)
        ≡ (locked s now m (by_email lower email) || locked s now m (by_ip lower email ip))
  unfolding check keys text_eq
  check-refused now m = check_pair s now (by_email lower email) (by_ip lower email ip) m refl

  -- A failure is counted under both keys.
  pub record_failure-Counted :
      (now : ℕ) (m : Failures)
      → IsDict m
      → Counted s now
          (by_email lower email)
          (by_ip lower email ip)
          m
          (record_failure lower s now email ip m)
  unfolding record_failure keys text_eq
  record_failure-Counted now m =
      count_pair s now (by_email lower email) (by_ip lower email ip) m refl refl

  -- A success clears both keys, so the next login is not refused.
  pub check-record_success :
      (now : ℕ) (m : Failures)
      → refused (check lower s now email ip (record_success lower email ip m)) ≡ false
  unfolding record_success check keys text_eq
  check-record_success now m = rw (check_pair s now k j (pop j (pop k m)) refl) (
      rw
        (
          locked-none s now (pop j (pop k m)) k popped_k,
          locked-none s now (pop j (pop k m)) j popped_j,
        )
        refl)
    where
      k : Text
      k = by_email lower email

      j : Text
      j = by_ip lower email ip

      popped_j : get (pop j (pop k m)) j ≡ (0, 0)
      popped_j = rw (get-pop j j (pop k m), text_eq_refl j) refl

      popped_k : get (pop j (pop k m)) k ≡ (0, 0)
      popped_k = rw (get-pop j k (pop k m), get-pop k k m, text_eq_refl k) refl

  -- Once the lock time has passed since the last failure under either key, a login is let through.
  pub check-expired :
      (now : ℕ) (m : Failures)
      → lockout s ≤ now - (get m (by_email lower email)).1
      → lockout s ≤ now - (get m (by_ip lower email ip)).1
      → refused (check lower s now email ip m) ≡ false
  check-expired now m h i =
      rw
        (
          check-refused now m,
          locked-expired s now m (by_email lower email) h,
          locked-expired s now m (by_ip lower email ip) i,
        )
        refl
