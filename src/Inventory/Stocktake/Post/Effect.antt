-- ===== src/Inventory/Stocktake/Post/Effect.antt =====
-- What the transaction of `post` in src/modules/inventory/stocktake.service.ts does to the stock: at
-- every place it adds the variances that were counted there.
use stock_mgt.Prelude.{
  ℕ, suc, ◌≡◌, refl, ◌∙◌, ap, true, false, Option, none, some, List, [], ◌∷◌, map, arith, ltb, ◌==◌,
  ==_iff, inl, inr, Bool-cases, if◌then◌else◌,
}
use stock_mgt.Prelude.Int.{ℤ, pos, neg, ◌+ℤ◌, ◌-ℤ◌, int_laws, +ℤ_assoc, eqb_ℤ, eqb_ℤ→eq, zero-+ℤ}
use stock_mgt.Prelude.Lists.{sum_ℤ, select, sum_ℤ-append}
use stock_mgt.Inventory.Stock.Tables.{Context}
use stock_mgt.Inventory.Stock.Writer.{StockWriter, IsDatabase}
use stock_mgt.Inventory.Stock.Calls.{Done, Done->>=, Done-map, Checked, lift-Checked}
use stock_mgt.Inventory.Stock.Operations.{Directory}
use stock_mgt.Inventory.Stock.OnHand.{Place, at, at_zero, on_hand}
use stock_mgt.Inventory.Stocktake.Rows.{Stocktake, StocktakeLine, on_hand_by_line}
use stock_mgt.Inventory.Stocktake.Post.{
  Variance, Group, amount, is_short, is_over, to_move, variances_of, add_to_product, by_product,
  groups_of, post_product, post_products, correct_stock,
}
use stock_mgt.Inventory.Stocktake.Post.Short.{line_place, lost, post_short-lost}
use stock_mgt.Inventory.Stocktake.Post.Over.{gained, post_over-gained}

module _ (s : Stocktake) (p : Place) where
  -- The variances of a product at a place, of groups, and of all the lines.
  abbrev pub settled : Group → ℤ
  settled g = sum_ℤ (λ (v : Variance). at p (line_place s g.0 v.line) v.variance) g.1

  abbrev pub of_groups : List Group → ℤ
  of_groups = sum_ℤ settled

  abbrev pub of_variances : List Variance → ℤ
  of_variances = sum_ℤ (λ (v : Variance). at p (line_place s v.line.product_id v.line) v.variance)

  abbrev pub of_lines : (expected : ℕ → Option ℕ → ℤ) → List StocktakeLine → ℤ
  of_lines expected = sum_ℤ (λ (l : StocktakeLine).
      at p (line_place s l.product_id l) (l.counted_quantity -ℤ expected l.product_id l.variant_id))

  short_amount : (v : Variance) → is_short v ≡ true → neg (pos (amount v)) ≡ v.variance
  unfolding ◌-ℤ◌
  short_amount v h = ground arith

  over_amount : (v : Variance) → is_over v ≡ true → pos (amount v) ≡ v.variance
  over_amount v h = ground arith

  no_amount : (v : Variance) → is_short v ≡ false → is_over v ≡ false → v.variance ≡ pos 0
  no_amount v h k = ground arith

  not_both : (v : Variance) → is_short v ≡ true → is_over v ≡ false
  not_both v h = ground arith

  -- What the short lines lose and the over lines gain is what the product is settled by.
  lost-gained :
      (product_id : ℕ) (vs : List Variance)
      → lost s product_id p (select is_short vs) +ℤ gained s product_id p (select is_over vs)
        ≡ settled (product_id, vs)
  lost-gained product_id [] = omega int_laws
  lost-gained product_id (v ∷ vs) =
      let here = line_place s product_id v.line in
      let rest = lost-gained product_id vs in
      elim (Bool-cases (is_short v)) [
        | inl e ↦ rw (e, not_both v e, ← rest, short_amount v e) (omega int_laws)
        | inr e ↦ elim (Bool-cases (is_over v)) [
          | inl e2 ↦ rw (e, e2, ← rest, over_amount v e2) (omega int_laws)
          | inr e2 ↦ rw (e, e2, ← rest, no_amount v e e2, at_zero p here) (omega int_laws)
        ]
      ]

  -- Grouping by product loses nothing.
  add_to_product-settled :
      (v : Variance) (groups : List Group)
      → of_groups (add_to_product v groups)
        ≡ of_groups groups +ℤ at p (line_place s v.line.product_id v.line) v.variance
  add_to_product-settled v [] = omega int_laws
  add_to_product-settled v ((product_id, vs) ∷ groups) =
      elim (Bool-cases (product_id == v.line.product_id)) [
        | inl e ↦
            let same : product_id ≡ v.line.product_id = (==_iff product_id v.line.product_id).0 e in
            rw (e, sum_ℤ-append, same) (omega int_laws)
        | inr e ↦ rw (e, add_to_product-settled v groups) (omega int_laws)
      ]

  by_product-settled :
      (groups : List Group) (vs : List Variance)
      → of_groups (by_product groups vs) ≡ of_groups groups +ℤ of_variances vs
  by_product-settled groups [] = omega int_laws
  by_product-settled groups (v ∷ vs) =
      rw (by_product-settled (add_to_product v groups) vs, add_to_product-settled v groups)
        (+ℤ_assoc _ _ _)

  -- A line that agrees with the ledger would have added nothing.
  variances_of-settled :
      (expected : ℕ → Option ℕ → ℤ) (lines : List StocktakeLine)
      → of_variances (variances_of expected lines) ≡ of_lines expected lines
  variances_of-settled expected [] = refl
  variances_of-settled expected (l ∷ ls) =
      let variance = l.counted_quantity -ℤ expected l.product_id l.variant_id in
      let rest = variances_of-settled expected ls in
      elim (Bool-cases (eqb_ℤ variance (pos 0))) [
        | inl e ↦
            rw (e, rest, eqb_ℤ→eq variance (pos 0) e, at_zero p (line_place s l.product_id l))
              (omega int_laws)
        | inr e ↦ rw (e, rest)
      ]

module _ {Db : Type 0} (w : StockWriter Db) (laws : IsDatabase w) (ctx : Context)
    (s : Stocktake) where
  post_product-settled :
      (n : ℕ) (g : Group) (d : Db)
      → Done
          (λ _ d'. (p : Place) → on_hand w p d' ≡ on_hand w p d +ℤ settled s p g)
          (post_product w ctx n s g d)
  unfolding post_product
  post_product-settled n (product_id, vs) d =
      let group = if ltb 0 (to_move vs) then some (ctx.random_uuid n) else none in
      Done->>= _ _ _ _
        (post_short-lost w laws ctx s product_id group (to_move vs) (select is_short vs) d)
        λ freed d1 h1.
          Done-map _
            (λ _ d2 h2 p. rw (h2 p, h1 p, ← lost-gained s p product_id vs) (+ℤ_assoc _ _ _))
            (post_over-gained w laws ctx s product_id group n freed (select is_over vs) d1)

  post_products-settled :
      (n : ℕ) (groups : List Group) (d : Db)
      → Done
          (λ _ d'. (p : Place) → on_hand w p d' ≡ on_hand w p d +ℤ of_groups s p groups)
          (post_products w ctx n s groups d)
  unfolding post_products
  post_products-settled n [] d = Done.returned _ _ λ p. omega int_laws
  post_products-settled n (g ∷ groups) d = Done->>= _ _ _ _ (post_product-settled n g d) λ _ d1 h1.
      Done->>= _ _ _ _ (post_products-settled (suc n) groups d1)
        λ corrections d2 h2. Done.returned _ _ λ p. rw (h2 p, h1 p) (+ℤ_assoc _ _ _)

module _ {Db : Type 0} (w : StockWriter Db) (laws : IsDatabase w) (directory : Directory Db)
    (ctx : Context) where
  -- What `post` measures the lines against.
  abbrev pub expected_for : Stocktake → Db → ℕ → Option ℕ → ℤ
  expected_for s d =
      on_hand_by_line w s.location_id (map (λ (l : StocktakeLine). l.product_id) s.lines) d

  pub correct_stock-settled :
      (s : Stocktake) (d : Db)
      → Done
          (λ _ d'.
            (p : Place) → on_hand w p d' ≡ on_hand w p d +ℤ of_lines s p (expected_for s d) s.lines)
          (correct_stock w directory ctx s d)
  unfolding correct_stock
  correct_stock-settled s d = Done->>= (Checked _ d) _ _ _ (lift-Checked _ d) λ _ d1 h1.
      Done->>= (λ groups d2. (d2 ≡ d1) × (groups ≡ groups_of w directory ctx s d1)) _ _ _
        (Done.returned _ _ (refl, refl))
        λ groups d2 h2.
          Done-map _
            (λ _ d3 h3 p.
              let back = h2.0 ∙ h1.0 in
              let same : groups ≡ groups_of w directory ctx s d =
                h2.1 ∙ ap (groups_of w directory ctx s) h1.0 in
              h3 p
              ∙ ap (λ x. on_hand w p x +ℤ of_groups s p groups) back
              ∙ ap (λ x. on_hand w p d +ℤ x)
                  (ap (of_groups s p) same
                    ∙ by_product-settled s p [] _
                    ∙ zero-+ℤ _
                    ∙ variances_of-settled s p (expected_for s d) s.lines))
            (post_products-settled w laws ctx s 1 groups d2)
