-- ===== src/Settlement/Coverage.antt =====
-- Every transaction falls into a unit (app/services/settlement_service.py).
use beautypos.Prelude.{
  ℕ, suc, min, ◌+◌, ◌≤◌, ◌≡◌, refl, Bool-cases, inl, inr, List, [], ◌∷◌, map, length, length-append,
  ◌==◌, Option-cases, arith,
}
use beautypos.Settlement.Floats.{Floats}
use beautypos.Settlement.Grouping.{
  Staff, Transaction, Group, Grouping, staff_of, append_to, place, group_txns, comes_first,
  insert_group, ordered, designer_unit, unassigned_units, alloc_units,
}

pub length-map {ℓ κ} :
    {A : Type ℓ} {B : Type κ} (f : A → B) (xs : List A) → length (map f xs) ≡ length xs
length-map f [] = refl
length-map f (x ∷ xs) = omega (arith, length-map f xs)

module _ (fl : Floats) where
  abbrev size : Grouping fl → ℕ
  size g = length g.groups + length g.unassigned_txns

  length-append_to :
      (s : Staff fl) (t : Transaction fl) (gs : List (Group fl))
      → (length gs ≤ length (append_to fl s t gs)) × (1 ≤ length (append_to fl s t gs))
  unfolding append_to
  length-append_to s t [] = omega arith
  length-append_to s t (g ∷ gs) = elim (Bool-cases (g.staff.id == s.id)) [
    | inl e ↦ rw e (omega arith)
    | inr e ↦ rw e (omega (arith, (length-append_to s t gs).0))
  ]

  size-place :
      (rows : List (Staff fl)) (g : Grouping fl) (t : Transaction fl)
      → (size g ≤ size (place fl rows g t)) × (1 ≤ size (place fl rows g t))
  unfolding place
  size-place rows g t = elim (Option-cases (staff_of fl rows t)) [
    | inl e ↦ rw (place, e) (omega (arith, length-append g.unassigned_txns (t ∷ [])))
    | inr (s, e) ↦
        rw (place, e)
          (omega (arith, (length-append_to s t g.groups).0, (length-append_to s t g.groups).1))
  ]

  size-group_txns :
      (rows : List (Staff fl)) (g : Grouping fl) (ts : List (Transaction fl))
      → size g ≤ size (group_txns fl rows g ts)
  unfolding group_txns
  size-group_txns rows g [] = omega arith
  size-group_txns rows g (t ∷ ts) =
      omega (arith, (size-place rows g t).0, size-group_txns rows (place fl rows g t) ts)

  length-insert_group :
      (g : Group fl) (gs : List (Group fl)) → length (insert_group fl g gs) ≡ suc (length gs)
  unfolding insert_group
  length-insert_group g [] = refl
  length-insert_group g (h ∷ hs) = elim (Bool-cases (comes_first fl h g)) [
    | inl e ↦ rw e (omega (arith, length-insert_group g hs))
    | inr e ↦ rw e refl
  ]

  length-ordered : (gs : List (Group fl)) → length (ordered fl gs) ≡ length gs
  unfolding ordered
  length-ordered [] = refl
  length-ordered (g ∷ gs) = omega (arith, length-insert_group g (ordered fl gs), length-ordered gs)

  length-unassigned_units :
      (ts : List (Transaction fl)) → min 1 (length ts) ≤ length (unassigned_units fl ts)
  unfolding unassigned_units
  length-unassigned_units [] = omega arith
  length-unassigned_units (t ∷ ts) = omega arith

  length-alloc_units : (g : Grouping fl) → 1 ≤ size g → 1 ≤ length (alloc_units fl g)
  unfolding alloc_units
  length-alloc_units g h = omega (
    arith,
    length-append (map (designer_unit fl) (ordered fl g.groups))
        (unassigned_units fl g.unassigned_txns),
    length-map (designer_unit fl) (ordered fl g.groups),
    length-ordered g.groups,
    length-unassigned_units g.unassigned_txns,
  )

  -- There is a unit as soon as there is a transaction.
  pub length-alloc_units_of :
      (rows : List (Staff fl)) (g : Grouping fl) (t : Transaction fl) (ts : List (Transaction fl))
      → 1 ≤ length (alloc_units fl (group_txns fl rows g (t ∷ ts)))
  unfolding group_txns
  length-alloc_units_of rows g t ts =
      length-alloc_units (group_txns fl rows g (t ∷ ts))
        (omega (arith, (size-place rows g t).1, size-group_txns rows (place fl rows g t) ts))
