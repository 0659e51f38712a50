-- ===== src/Settlement/Identities.antt =====
-- The identities that `compute_distribution` promises (app/services/settlement_service.py).
use beautypos.Prelude.{
  ◌≡◌, refl, subst, ◌∙◌, inl, inr, List, [], ◌∷◌, ◌++◌, map, none, some, Option-cases,
}
use beautypos.Prelude.Int.{ℤ, pos, ◌+ℤ◌, int_laws, -ℤ_cancel}
use beautypos.Settlement.Floats.{Floats}
use beautypos.Settlement.Grouping.{
  Staff, Transaction, Group, AllocUnit, designer_unit, unassigned_units,
}
use beautypos.Settlement.Distribution.{
  Part, parts, DesignerRow, UnassignedRow, designer_row, update_unassigned, Loop, step, run,
}
use beautypos.Settlement.Sums.{sum_over, sum_over-snoc}

module _ (fl : Floats) where
  -- An amount that the loop copies from a part to the row of a designer or to the unassigned row.
  pub record Column : Type 0 where
    pub of_part : Part fl → ℤ
    pub of_row : DesignerRow fl → ℤ
    pub of_unassigned : UnassignedRow → ℤ
    pub on_row : (s : Staff fl) (p : Part fl) → of_row (designer_row fl s p) ≡ of_part p
    pub on_unassigned :
        (r : UnassignedRow) (p : Part fl) → of_unassigned (update_unassigned fl r p) ≡ of_part p

  -- Only the last part, or unit, may be nobody's.
  abbrev pub UnassignedIsLast : List (Part fl) → Type 0
  UnassignedIsLast [] = Unit
  UnassignedIsLast (p ∷ ps) = (p.unit.staff ≡ none → ps ≡ []) × UnassignedIsLast ps

  abbrev pub UnassignedUnitIsLast : List (AllocUnit fl) → Type 0
  UnassignedUnitIsLast [] = Unit
  UnassignedUnitIsLast (u ∷ us) = (u.staff ≡ none → us ≡ []) × UnassignedUnitIsLast us

  pub units-UnassignedUnitIsLast :
      (gs : List (Group fl)) (ts : List (Transaction fl))
      → UnassignedUnitIsLast (map (designer_unit fl) gs ++ unassigned_units fl ts)
  unfolding designer_unit unassigned_units
  units-UnassignedUnitIsLast [] [] = tt
  units-UnassignedUnitIsLast [] (t ∷ ts) = ((λ e. refl), tt)
  units-UnassignedUnitIsLast (g ∷ gs) ts = ((λ e. cc), units-UnassignedUnitIsLast gs ts)

  pub parts-UnassignedIsLast :
      (us : List (AllocUnit fl)) (mfs pgs comms nets : List ℤ)
      → UnassignedUnitIsLast us
      → UnassignedIsLast (parts fl us mfs pgs comms nets)
  unfolding parts
  parts-UnassignedIsLast (u ∷ us) (a ∷ ws) (b ∷ bs) (c ∷ cs) (d ∷ ds) h =
      ((λ e. rw (h.0 e) refl), parts-UnassignedIsLast us ws bs cs ds h.1)
  parts-UnassignedIsLast [] mfs pgs comms nets h = tt
  parts-UnassignedIsLast (u ∷ us) [] bs cs ds h = tt
  parts-UnassignedIsLast (u ∷ us) (a ∷ ws) [] cs ds h = tt
  parts-UnassignedIsLast (u ∷ us) (a ∷ ws) (b ∷ bs) [] ds h = tt
  parts-UnassignedIsLast (u ∷ us) (a ∷ ws) (b ∷ bs) (c ∷ cs) [] h = tt

  step-none :
      (l : Loop fl) (p : Part fl)
      → p.unit.staff ≡ none
      → step fl l p ≡ record l {
        owner_amount = l.owner_amount +ℤ p.net_payout;
        unassigned = update_unassigned fl l.unassigned p;
      }
  unfolding step
  step-none l p e = rw e refl

  step-some :
      (l : Loop fl) (p : Part fl) (s : Staff fl)
      → p.unit.staff ≡ some s
      → step fl l p ≡ (
          let row = designer_row fl s p in
          record l {
            designers = l.designers ++ (row ∷ []);
            designer_total = l.designer_total +ℤ row.designer_amount;
            owner_amount = l.owner_amount +ℤ row.owner_amount;
          })
  unfolding step
  step-some l p s e = rw e refl

  module _ (c : Column) where
    abbrev pub column_sum : List (DesignerRow fl) → UnassignedRow → ℤ
    column_sum ds r = sum_over c.of_row ds +ℤ c.of_unassigned r

    column_sum-update_unassigned :
        (ds : List (DesignerRow fl)) (r : UnassignedRow) (p : Part fl)
        → column_sum ds (update_unassigned fl r p) ≡ sum_over c.of_row ds +ℤ (c.of_part p +ℤ pos 0)
    column_sum-update_unassigned ds r p = rw (c.on_unassigned r p) (omega int_laws)

    sum_over-snoc_row :
        (ds : List (DesignerRow fl)) (s : Staff fl) (p : Part fl) (n : ℤ)
        → sum_over c.of_row (ds ++ (designer_row fl s p ∷ [])) +ℤ n
          ≡ sum_over c.of_row ds +ℤ (c.of_part p +ℤ n)
    sum_over-snoc_row ds s p n =
        rw (sum_over-snoc c.of_row ds (designer_row fl s p), c.on_row s p) (omega int_laws)

    pub run-column_sum :
        (l : Loop fl) (ps : List (Part fl))
        → UnassignedIsLast ps
        → c.of_unassigned l.unassigned ≡ pos 0
        → column_sum (run fl l ps).designers (run fl l ps).unassigned
          ≡ sum_over c.of_row l.designers +ℤ sum_over c.of_part ps
    unfolding run
    run-column_sum l [] d z = rw z refl
    run-column_sum l (p ∷ ps) d z = elim (Option-cases p.unit.staff) [
      | inl e ↦
          rw (run, step-none l p e, d.0 e) (column_sum-update_unassigned l.designers l.unassigned p)
      | inr (s, e) ↦
          rw (run, step-some l p s e)
            (run-column_sum
                (record l {
                  designers = l.designers ++ (designer_row fl s p ∷ []);
                  designer_total = l.designer_total +ℤ (designer_row fl s p).designer_amount;
                  owner_amount = l.owner_amount +ℤ (designer_row fl s p).owner_amount;
                })
                ps d.1 z
              ∙ sum_over-snoc_row l.designers s p (sum_over c.of_part ps))
    ]

  -- A designer's part of a net amount and the owner's make up the whole.
  paid-designer_row :
      (s : Staff fl) (p : Part fl)
      → (designer_row fl s p).designer_amount +ℤ (designer_row fl s p).owner_amount ≡ p.net_payout
  unfolding designer_row
  paid-designer_row s p = -ℤ_cancel _ p.net_payout

  +ℤ_owner : (d o n r : ℤ) → (d +ℤ (o +ℤ n)) +ℤ r ≡ (d +ℤ o) +ℤ (n +ℤ r)
  +ℤ_owner d o n r = omega int_laws

  +ℤ_pay : (d o a b n r : ℤ) → a +ℤ b ≡ n → ((d +ℤ a) +ℤ (o +ℤ b)) +ℤ r ≡ (d +ℤ o) +ℤ (n +ℤ r)
  +ℤ_pay d o a b n r e =
      subst (λ m. ((d +ℤ a) +ℤ (o +ℤ b)) +ℤ r ≡ (d +ℤ o) +ℤ (m +ℤ r)) e (omega int_laws)

  pub run-paid :
      (l : Loop fl) (ps : List (Part fl))
      → (run fl l ps).designer_total +ℤ (run fl l ps).owner_amount
        ≡ (l.designer_total +ℤ l.owner_amount) +ℤ sum_over (λ p. p.net_payout) ps
  unfolding run
  run-paid l [] = omega int_laws
  run-paid l (p ∷ ps) = elim (Option-cases p.unit.staff) [
    | inl e ↦
        rw (run, step-none l p e)
          (run-paid
              (record l {
                owner_amount = l.owner_amount +ℤ p.net_payout;
                unassigned = update_unassigned fl l.unassigned p;
              })
              ps
            ∙ +ℤ_owner l.designer_total l.owner_amount p.net_payout
                (sum_over (λ q. q.net_payout) ps))
    | inr (s, e) ↦
        rw (run, step-some l p s e)
          (run-paid
              (record l {
                designers = l.designers ++ (designer_row fl s p ∷ []);
                designer_total = l.designer_total +ℤ (designer_row fl s p).designer_amount;
                owner_amount = l.owner_amount +ℤ (designer_row fl s p).owner_amount;
              })
              ps
            ∙ +ℤ_pay l.designer_total l.owner_amount (designer_row fl s p).designer_amount
                (designer_row fl s p).owner_amount p.net_payout (sum_over (λ q. q.net_payout) ps)
                (paid-designer_row s p))
  ]
