-- ===== src/Inventory/Stocktake/Post/Short.antt =====
-- The lines of a count that are short: what their loop in `postProduct` of
-- src/modules/inventory/stocktake.service.ts takes out.
use stock_mgt.Prelude.{
  ℕ, ◌-◌, min, ◌≡◌, ◌∙◌, ap, false, Option, none, List, [], ◌∷◌, arith, ltb, inl, inr, Bool-cases,
}
use stock_mgt.Prelude.Int.{ℤ, pos, neg, ◌+ℤ◌, int_laws, +ℤ_assoc}
use stock_mgt.Prelude.Lists.{sum_ℤ}
use stock_mgt.Inventory.Stock.Tables.{StockMovementType, Context}
use stock_mgt.Inventory.Stock.Writer.{StockWriter, IsDatabase}
use stock_mgt.Inventory.Stock.Calls.{Done, Done->>=, Done-map}
use stock_mgt.Inventory.Stock.OnHand.{
  Place, at, on_hand, Changed, Changed-same, Changed-then, record_outbound-Changed,
}
use stock_mgt.Inventory.Stocktake.Rows.{Stocktake, StocktakeLine}
use stock_mgt.Inventory.Stocktake.Post.{
  Variance, amount, out_of, move_out, write_off_rest, post_short,
}

-- Where a line of a product was counted.
abbrev pub line_place : Stocktake → ℕ → StocktakeLine → Place
line_place s product_id line = record {
  product_id = product_id;
  variant_id = line.variant_id;
  location_id = s.location_id;
}

-- What the lines that are short lose at a place.
abbrev pub lost : Stocktake → ℕ → Place → List Variance → ℤ
lost s product_id p = sum_ℤ (λ v. at p (line_place s product_id v.line) (neg (pos (amount v))))

split_min : (n m : ℕ) → neg (pos (min n m)) +ℤ neg (pos (m - min n m)) ≡ neg (pos m)
split_min n m = omega int_laws

pub not_positive : (n : ℕ) → ltb 0 n ≡ false → n ≡ 0
not_positive n h = ground arith

neg_zero : neg (pos 0) ≡ pos 0
neg_zero = omega int_laws

module _ {Db : Type 0} (w : StockWriter Db) (laws : IsDatabase w) (ctx : Context) (s : Stocktake)
    (product_id : ℕ) (group : Option ℕ) where
  move_out-Changed :
      (line : StocktakeLine) (moving : ℕ) (d : Db)
      → Done
          (λ _ d'. Changed w (line_place s product_id line) (neg (pos moving)) d d')
          (move_out w ctx s product_id group line moving d)
  unfolding move_out
  move_out-Changed line moving d = elim (Bool-cases (ltb 0 moving)) [
    | inl e ↦ rw e (
        Done->>= _ _ _ _
          (record_outbound-Changed w laws ctx
            (out_of s product_id line StockMovementType.transfer_out group moving) d)
          λ out d1 h1. Done.returned _ _ h1.0)
    | inr e ↦ rw e (
        let nothing : neg (pos moving) ≡ pos 0 =
          ap (λ n. neg (pos n)) (not_positive moving e) ∙ neg_zero in
        Done.returned _ _ (rw nothing (Changed-same w (line_place s product_id line) d)))
  ]

  write_off_rest-Changed :
      (line : StocktakeLine) (rest : ℕ) (d : Db)
      → Done
          (λ _ d'. Changed w (line_place s product_id line) (neg (pos rest)) d d')
          (write_off_rest w ctx s product_id group line rest d)
  unfolding write_off_rest
  write_off_rest-Changed line rest d = elim (Bool-cases (ltb 0 rest)) [
    | inl e ↦ rw e (
        Done-map _ (λ _ _ h. h.0)
          (record_outbound-Changed w laws ctx
            (out_of s product_id line StockMovementType.adjustment none rest) d))
    | inr e ↦ rw e (
        let nothing : neg (pos rest) ≡ pos 0 =
          ap (λ n. neg (pos n)) (not_positive rest e) ∙ neg_zero in
        Done.returned _ _ (rw nothing (Changed-same w (line_place s product_id line) d)))
  ]

  -- Each line that is short loses just what it is short by.
  pub post_short-lost :
      (moving : ℕ) (short : List Variance) (d : Db)
      → Done
          (λ _ d'. (p : Place) → on_hand w p d' ≡ on_hand w p d +ℤ lost s product_id p short)
          (post_short w ctx s product_id group moving short d)
  unfolding post_short
  post_short-lost moving [] d = Done.returned _ _ λ p. omega int_laws
  post_short-lost moving (v ∷ short) d =
      let here = line_place s product_id v.line in
      let part = min moving (amount v) in
      Done->>= _ _ _ _ (move_out-Changed v.line part d) λ freed d1 h1.
        Done->>= _ _ _ _ (write_off_rest-Changed v.line (amount v - part) d1) λ written d2 h2.
          Done->>= _ _ _ _ (post_short-lost (moving - part) short d2) λ later d3 h3.
            Done.returned _ _ λ p.
              let both : at p here (neg (pos part) +ℤ neg (pos (amount v - part)))
                  ≡ at p here (neg (pos (amount v))) =
                ap (at p here) (split_min moving (amount v)) in
              rw (h3 p, Changed-then w here _ _ d d1 d2 h1 h2 p, both) (+ℤ_assoc _ _ _)
