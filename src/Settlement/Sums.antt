-- ===== src/Settlement/Sums.antt =====
-- Sums of whole won over lists, through the splitting, the zipping and the sorting of
-- app/services/settlement_service.py.
use beautypos.Prelude.{
  ◌≡◌, refl, sym, ap, ◌∙◌, Bool-cases, inl, inr, List, [], ◌∷◌, ◌++◌, length, arith,
}
use beautypos.Prelude.Int.{ℤ, pos, ◌+ℤ◌, ◌-ℤ◌, ltb_ℤ, int_laws, +ℤ_assoc, -ℤ_cancel}
use beautypos.Settlement.Floats.{Floats}
use beautypos.Settlement.Allocation.{sum_ℤ}
use beautypos.Settlement.Grouping.{AllocUnit}
use beautypos.Settlement.Distribution.{
  Part, parts, DesignerRow, insert_row, by_gross, add_to_last, net_of_units, net_alloc,
}

abbrev pub sum_over {ℓ} : {A : Type ℓ} → (A → ℤ) → List A → ℤ
sum_over f [] = pos 0
sum_over f (x ∷ xs) = f x +ℤ sum_over f xs

+ℤ_swap : (a b c : ℤ) → a +ℤ (b +ℤ c) ≡ b +ℤ (a +ℤ c)
+ℤ_swap a b c = omega int_laws

module _ {ℓ} {A : Type ℓ} (f : A → ℤ) where
  pub sum_over-snoc : (xs : List A) (x : A) → sum_over f (xs ++ (x ∷ [])) ≡ sum_over f xs +ℤ f x
  sum_over-snoc [] x = omega int_laws
  sum_over-snoc (y ∷ ys) x =
      ap (λ z. f y +ℤ z) (sum_over-snoc ys x) ∙ sym (+ℤ_assoc (f y) (sum_over f ys) (f x))

sum-add_to_last : (d n : ℤ) (ns : List ℤ) → sum_ℤ (add_to_last d (n ∷ ns)) ≡ sum_ℤ (n ∷ ns) +ℤ d
unfolding add_to_last
sum-add_to_last d n [] = omega int_laws
sum-add_to_last d n (m ∷ ns) =
    ap (λ z. n +ℤ z) (sum-add_to_last d m ns) ∙ sym (+ℤ_assoc n (sum_ℤ (m ∷ ns)) d)

length-add_to_last : (d : ℤ) (ns : List ℤ) → length (add_to_last d ns) ≡ length ns
unfolding add_to_last
length-add_to_last d [] = refl
length-add_to_last d (n ∷ []) = refl
length-add_to_last d (n ∷ m ∷ ns) = omega (arith, length-add_to_last d (m ∷ ns))

module _ (fl : Floats) where
  module _ (f : DesignerRow fl → ℤ) where
    sum-insert_row :
        (d : DesignerRow fl) (ds : List (DesignerRow fl))
        → sum_over f (insert_row fl d ds) ≡ f d +ℤ sum_over f ds
    unfolding insert_row
    sum-insert_row d [] = refl
    sum-insert_row d (e ∷ es) = elim (Bool-cases (ltb_ℤ d.gross e.gross)) [
      | inl h ↦
          rw h (ap (λ z. f e +ℤ z) (sum-insert_row d es) ∙ +ℤ_swap (f e) (f d) (sum_over f es))
      | inr h ↦ rw h refl
    ]

    pub sum-by_gross : (ds : List (DesignerRow fl)) → sum_over f (by_gross fl ds) ≡ sum_over f ds
    unfolding by_gross
    sum-by_gross [] = refl
    sum-by_gross (d ∷ ds) = sum-insert_row d (by_gross fl ds) ∙ ap (λ z. f d +ℤ z) (sum-by_gross ds)

  length-net_of_units :
      (us : List (AllocUnit fl)) (mfs : List ℤ)
      → length mfs ≡ length us
      → length (net_of_units fl us mfs) ≡ length us
  unfolding net_of_units
  length-net_of_units [] mfs h = refl
  length-net_of_units (u ∷ us) [] h = omega arith
  length-net_of_units (u ∷ us) (mf ∷ mfs) h =
      omega (arith, length-net_of_units us mfs (omega arith))

  pub length-net_alloc :
      (n : ℤ) (us : List (AllocUnit fl)) (mfs : List ℤ)
      → length mfs ≡ length us
      → length (net_alloc fl n us mfs) ≡ length us
  unfolding net_alloc
  length-net_alloc n us mfs h =
      length-add_to_last (n -ℤ sum_ℤ (net_of_units fl us mfs)) (net_of_units fl us mfs)
      ∙ length-net_of_units us mfs h

  pub sum-net_alloc :
      (n : ℤ) (u : AllocUnit fl) (us : List (AllocUnit fl)) (mfs : List ℤ)
      → length mfs ≡ length (u ∷ us)
      → sum_ℤ (net_alloc fl n (u ∷ us) mfs) ≡ n
  unfolding net_alloc net_of_units
  sum-net_alloc n u us [] h = ground arith
  sum-net_alloc n u us (mf ∷ mfs) h =
      let nets = net_of_units fl us mfs in
      let m = fl.int u.gross -ℤ mf in
      sum-add_to_last (n -ℤ sum_ℤ (m ∷ nets)) m nets ∙ -ℤ_cancel (sum_ℤ (m ∷ nets)) n

  -- The columns of the parts are the four lists, when these have one entry for each unit.
  pub record Columns (mfs pgs comms nets : List ℤ) (ps : List (Part fl)) : Type 0 where
    pub fees : sum_over (λ p. p.merchant_fee) ps ≡ sum_ℤ mfs
    pub costs : sum_over (λ p. p.pg_cost) ps ≡ sum_ℤ pgs
    pub commissions : sum_over (λ p. p.sales_commission) ps ≡ sum_ℤ comms
    pub nets_ : sum_over (λ p. p.net_payout) ps ≡ sum_ℤ nets

  pub parts-Columns :
      (us : List (AllocUnit fl)) (mfs pgs comms nets : List ℤ)
      → length mfs ≡ length us
      → length pgs ≡ length us
      → length comms ≡ length us
      → length nets ≡ length us
      → Columns mfs pgs comms nets (parts fl us mfs pgs comms nets)
  unfolding parts
  parts-Columns [] [] [] [] [] h k l m = record {
    fees = refl;
    costs = refl;
    commissions = refl;
    nets_ = refl;
  }
  parts-Columns (u ∷ us) (a ∷ ws) (b ∷ bs) (c ∷ cs) (d ∷ ds) h k l m =
      let rest =
        parts-Columns us ws bs cs ds (omega arith) (omega arith) (omega arith) (omega arith) in
      record {
        fees = ap (λ z. a +ℤ z) rest.fees;
        costs = ap (λ z. b +ℤ z) rest.costs;
        commissions = ap (λ z. c +ℤ z) rest.commissions;
        nets_ = ap (λ z. d +ℤ z) rest.nets_;
      }
  parts-Columns [] (a ∷ ws) bs cs ds h k l m = absurd (omega arith)
  parts-Columns [] [] (b ∷ bs) cs ds h k l m = absurd (omega arith)
  parts-Columns [] [] [] (c ∷ cs) ds h k l m = absurd (omega arith)
  parts-Columns [] [] [] [] (d ∷ ds) h k l m = absurd (omega arith)
  parts-Columns (u ∷ us) [] bs cs ds h k l m = absurd (omega arith)
  parts-Columns (u ∷ us) (a ∷ ws) [] cs ds h k l m = absurd (omega arith)
  parts-Columns (u ∷ us) (a ∷ ws) (b ∷ bs) [] ds h k l m = absurd (omega arith)
  parts-Columns (u ∷ us) (a ∷ ws) (b ∷ bs) (c ∷ cs) [] h k l m = absurd (omega arith)
