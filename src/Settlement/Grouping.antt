-- ===== src/Settlement/Grouping.antt =====
-- Sharing the transactions out to the designers (app/services/settlement_service.py): the groups,
-- their order, and the units between which the amounts are split.
use beautypos.Prelude.{
  ℕ, ◌==◌, ltb, Bool, ◌&&◌, ◌||◌, not, if◌then◌else◌, List, [], ◌∷◌, ◌++◌, map, Option, none, some,
  first, where_,
}
use beautypos.Text.{Text}
use beautypos.Settlement.Floats.{Floats}
use beautypos.Settlement.Rates.{bind, truthy}

module _ (fl : Floats) where
  open fl use {Float, sum, lt}

  -- `share_rate` may be NULL.
  pub record Staff : Type 0 where
    pub id : ℕ
    pub name : Text
    pub staff_code : Option Text
    pub share_rate : Option Float

  pub record Transaction : Type 0 where
    pub staff_id : Option ℕ
    pub amount : Float

  -- `staff_by_id[t.staff_id]`, where `t.staff_id and t.staff_id in staff_by_id`: ids are keys.
  unfoldable pub staff_of : List Staff → Transaction → Option Staff
  staff_of rows t = bind (truthy t.staff_id) (λ i. first (where_ (λ s. s.id == i) rows))

  pub record Group : Type 0 where
    pub staff : Staff
    pub txns : List Transaction

  -- `groups.setdefault(t.staff_id, []).append(t)`
  unfoldable pub append_to : Staff → Transaction → List Group → List Group
  append_to s t [] = (record { staff = s; txns = t ∷ [] }) ∷ []
  append_to s t (g ∷ gs) =
      let rest = append_to s t gs in
      if g.staff.id == s.id then (record g { txns = g.txns ++ (t ∷ []) }) ∷ gs else g ∷ rest

  pub record Grouping : Type 0 where
    pub groups : List Group
    pub unassigned_txns : List Transaction

  unfoldable pub place : List Staff → Grouping → Transaction → Grouping
  unfolding staff_of append_to
  place rows g t = elim (staff_of rows t) [
    | none ↦ record g { unassigned_txns = g.unassigned_txns ++ (t ∷ []) }
    | some s ↦ record g { groups = append_to s t g.groups }
  ]

  unfoldable pub group_txns : List Staff → Grouping → List Transaction → Grouping
  group_txns rows g [] = g
  group_txns rows g (t ∷ ts) = group_txns rows (place rows g t) ts

  unfoldable pub gross_of : List Transaction → Float
  gross_of ts = sum (map (λ t. t.amount) ts)

  -- `key=lambda sid: (-gross_by_staff[sid], sid)`
  unfoldable pub comes_first : Group → Group → Bool
  unfolding gross_of
  comes_first g h =
      lt (gross_of h.txns) (gross_of g.txns)
      || (not (lt (gross_of g.txns) (gross_of h.txns)) && ltb g.staff.id h.staff.id)

  unfoldable pub insert_group : Group → List Group → List Group
  unfolding comes_first
  insert_group g [] = g ∷ []
  insert_group g (h ∷ hs) =
      let rest = insert_group g hs in if comes_first h g then h ∷ rest else g ∷ h ∷ hs

  unfoldable pub ordered : List Group → List Group
  ordered [] = []
  ordered (g ∷ gs) = insert_group g (ordered gs)

  -- One element of `alloc_units`: the transactions of a designer, or those of nobody.
  pub record AllocUnit : Type 0 where
    pub staff : Option Staff
    pub txns : List Transaction
    pub gross : Float

  unfoldable pub designer_unit : Group → AllocUnit
  designer_unit g = record { staff = some g.staff; txns = g.txns; gross = gross_of g.txns }

  unfoldable pub unassigned_units : List Transaction → List AllocUnit
  unassigned_units [] = []
  unassigned_units (t ∷ ts) =
      (record { staff = none; txns = t ∷ ts; gross = gross_of (t ∷ ts) }) ∷ []

  unfoldable pub alloc_units : Grouping → List AllocUnit
  unfolding ordered designer_unit unassigned_units
  alloc_units g = map designer_unit (ordered g.groups) ++ unassigned_units g.unassigned_txns
