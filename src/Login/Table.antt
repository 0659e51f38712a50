-- ===== src/Login/Table.antt =====
-- The laws of the table of failures (app/services/login_guard.py).
use beautypos.Prelude.{
  ℕ, ◌-◌, ◌≡◌, refl, Bool, false, Bool-cases, inl, inr, ltb, leb, if◌then◌else◌, [], ◌∷◌, length,
  arith, ◌||◌,
}
use beautypos.Text.{Text, text_eq, text_eq_iff}
use beautypos.Login.Guard.{Failures, get, put, pop, drop_stale, prune, max_entries}

abbrev pub has : Failures → Text → Bool
has [] k = false
has ((j, v) ∷ m) k = text_eq j k || has m k

-- No key stands twice.
abbrev pub IsDict : Failures → Type 0
IsDict [] = Unit
IsDict ((j, v) ∷ m) = (has m j ≡ false) × IsDict m

pub get-put :
    (k j : Text) (v : ℕ × ℕ) (m : Failures)
    → get (put k v m) j ≡ (if text_eq k j then v else get m j)
unfolding get put
get-put k j v [] = refl
get-put k j v ((i, w) ∷ m) =
    ground (arith, text_eq_iff k j, text_eq_iff i k, text_eq_iff i j, get-put k j v m)

pub get-pop :
    (k j : Text) (m : Failures) → get (pop k m) j ≡ (if text_eq k j then (0, 0) else get m j)
unfolding get pop
get-pop k j [] = ground arith
get-pop k j ((i, w) ∷ m) =
    ground (arith, text_eq_iff k j, text_eq_iff i k, text_eq_iff i j, get-pop k j m)

pub has-put : (k j : Text) (v : ℕ × ℕ) (m : Failures) → has (put k v m) j ≡ (text_eq k j || has m j)
unfolding put
has-put k j v [] = refl
has-put k j v ((i, w) ∷ m) =
    ground (arith, text_eq_iff k j, text_eq_iff i k, text_eq_iff i j, has-put k j v m)

pub put-IsDict : (k : Text) (v : ℕ × ℕ) (m : Failures) → IsDict m → IsDict (put k v m)
unfolding put
put-IsDict k v [] d = (refl, tt)
put-IsDict k v ((i, w) ∷ m) d =
    ground (arith, text_eq_iff i k, text_eq_iff k i, has-put k i v m, put-IsDict k v m d.1)

has-pop : (k j : Text) (m : Failures) → has m j ≡ false → has (pop k m) j ≡ false
unfolding pop
has-pop k j [] h = refl
has-pop k j ((i, w) ∷ m) h = ground (arith, has-pop k j m)

pub pop-IsDict : (k : Text) (m : Failures) → IsDict m → IsDict (pop k m)
unfolding pop
pop-IsDict k [] d = tt
pop-IsDict k ((i, w) ∷ m) d = ground (arith, has-pop k i m d.0, pop-IsDict k m d.1)

has-drop_stale :
    (now limit : ℕ) (k : Text) (m : Failures)
    → has m k ≡ false
    → has (drop_stale now limit m) k ≡ false
unfolding drop_stale
has-drop_stale now limit k [] h = refl
has-drop_stale now limit k ((i, (n, last)) ∷ m) h = ground (arith, has-drop_stale now limit k m)

drop_stale-IsDict : (now limit : ℕ) (m : Failures) → IsDict m → IsDict (drop_stale now limit m)
unfolding drop_stale
drop_stale-IsDict now limit [] d = tt
drop_stale-IsDict now limit ((i, (n, last)) ∷ m) d =
    ground (arith, has-drop_stale now limit i m d.0, drop_stale-IsDict now limit m d.1)

get-absent : (k : Text) (m : Failures) → has m k ≡ false → get m k ≡ (0, 0)
unfolding get
get-absent k [] h = refl
get-absent k ((i, w) ∷ m) h = ground (arith, get-absent k m)

-- The failures that count at the time `now`: those that are not forgotten.
abbrev pub effective : ℕ → ℕ → Failures → Text → ℕ
effective now limit m k = if ltb limit (now - (get m k).1) then 0 else (get m k).0

drop_stale-effective :
    (now limit : ℕ) (m : Failures) (k : Text)
    → IsDict m
    → effective now limit (drop_stale now limit m) k ≡ effective now limit m k
unfolding drop_stale get
drop_stale-effective now limit [] k d = refl
drop_stale-effective now limit ((i, (n, last)) ∷ m) k d = ground (
  arith,
  text_eq_iff i k,
  get-absent i (drop_stale now limit m) (has-drop_stale now limit i m d.0),
  drop_stale-effective now limit m k d.1,
)

-- Pruning forgets nothing that counts.
pub prune-effective :
    (now limit : ℕ) (m : Failures) (k : Text)
    → IsDict m
    → effective now limit (prune now limit m) k ≡ effective now limit m k
unfolding prune
prune-effective now limit m k d = elim (Bool-cases (leb (length m) max_entries)) [
  | inl e ↦ rw e refl
  | inr e ↦ rw e (drop_stale-effective now limit m k d)
]

pub prune-IsDict : (now limit : ℕ) (m : Failures) → IsDict m → IsDict (prune now limit m)
unfolding prune
prune-IsDict now limit m d = elim (Bool-cases (leb (length m) max_entries)) [
  | inl e ↦ rw e d
  | inr e ↦ rw e (drop_stale-IsDict now limit m d)
]
