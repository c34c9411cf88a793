-- ===== src/Inventory/Stocktake/Sheet.antt =====
-- The lines of a count (src/modules/inventory/stocktake.service.ts): one for each product and option,
-- and what they come to at a place.
use stock_mgt.Prelude.{
  ℕ, ◌≡◌, refl, ◌∙◌, ap, sym, Bool, true, false, ◌&&◌, ◌||◌, Option, none, some, List, [], ◌∷◌, map,
  arith, ◌==◌, opt_eq, inl, inr, Bool-cases, opt_eq→eq, opt_eq_refl, ==_refl,
}
use stock_mgt.Prelude.Int.{ℤ, pos, ◌+ℤ◌, ◌-ℤ◌, int_laws, +ℤ-zero, zero-+ℤ}
use stock_mgt.Prelude.Lists.{All, All-imp, find, any, mem}
use stock_mgt.Inventory.Stock.Tables.{StockBalance}
use stock_mgt.Inventory.Stock.Ledger.{balances_at}
use stock_mgt.Inventory.Stock.OnHand.{Place, place_of, place_eq, place_eq→eq, at_place}
use stock_mgt.Inventory.Stocktake.Rows.{
  Stocktake, StocktakeLine, is_line, balances_for, quantity_for,
}
use stock_mgt.Inventory.Stocktake.Post.Short.{line_place}
use stock_mgt.Inventory.Stocktake.Post.Effect.{of_lines}

-- One line for each product and option.
abbrev pub Distinct : List StocktakeLine → Type 0
Distinct [] = Unit
Distinct (l ∷ ls) = (any (is_line l.product_id l.variant_id) ls ≡ false) × Distinct ls

-- What was counted at a place, if anything.
abbrev pub line_at : Stocktake → Place → List StocktakeLine → Option StocktakeLine
line_at s p = find (λ (l : StocktakeLine). place_eq p (line_place s l.product_id l))

abbrev pub counted_or : ℤ → Option StocktakeLine → ℤ
counted_or before none = before
counted_or before (some l) = l.counted_quantity

module _ (p : Place) (product_ids : List ℕ) (h : mem p.product_id product_ids ≡ true) where
  kept : StockBalance → Bool
  kept b = (b.key.location_id == p.location_id) && mem b.key.product_id product_ids

  named : StockBalance → Bool
  named b = (b.key.product_id == p.product_id) && opt_eq b.key.variant_id p.variant_id

  here-kept : (b : StockBalance) → at_place p b.key ≡ true → (kept b ≡ true) × (named b ≡ true)
  unfolding kept named
  here-kept b e =
      let same : p ≡ place_of b.key = place_eq→eq p (place_of b.key) e in
      let product : p.product_id ≡ b.key.product_id = ap (λ (q : Place). q.product_id) same in
      let variant : p.variant_id ≡ b.key.variant_id = ap (λ (q : Place). q.variant_id) same in
      let location : p.location_id ≡ b.key.location_id = ap (λ (q : Place). q.location_id) same in
      rw
        (
          ← product,
          ← variant,
          ← location,
          ==_refl p.location_id,
          ==_refl p.product_id,
          opt_eq_refl p.variant_id,
          h,
        )
        (refl, refl)

  elsewhere-named : (b : StockBalance) → at_place p b.key ≡ false → kept b ≡ true → named b ≡ false
  unfolding kept named
  elsewhere-named b e k = elim (Bool-cases (named b)) [
    | inr n ↦ n
    | inl n ↦ ground (arith, opt_eq→eq b.key.variant_id p.variant_id, opt_eq_refl p.variant_id)
  ]

  -- The sum that `onHandByLine` reads is what is on hand.
  pub quantity_for-balances_at :
      (bs : List StockBalance)
      → quantity_for (balances_for p.location_id product_ids bs) p.product_id p.variant_id
        ≡ balances_at (at_place p) bs
  unfolding kept named
  quantity_for-balances_at [] = refl
  quantity_for-balances_at (b ∷ bs) =
      let rest = quantity_for-balances_at bs in
      elim (Bool-cases (at_place p b.key)) [
        | inl e ↦ rw (e, (here-kept b e).0, (here-kept b e).1, rest)
        | inr e ↦ elim (Bool-cases (kept b)) [
          | inl k ↦ rw (e, k, elsewhere-named b e k, rest)
          | inr k ↦ rw (e, k, rest) (omega int_laws)
        ]
      ]

-- Every line's product is among the products of the lines.
pub mem-products :
    (ls : List StocktakeLine)
    → All (λ l. mem l.product_id (map (λ (x : StocktakeLine). x.product_id) ls) ≡ true) ls
mem-products [] = tt
mem-products (l ∷ ls) = (
  rw (==_refl l.product_id),
  All-imp
      (λ x (h : mem x.product_id (map (λ (y : StocktakeLine). y.product_id) ls) ≡ true).
        ground (arith, h))
      ls (mem-products ls),
)

pub or_false : (a b : Bool) → (a || b) ≡ false → (a ≡ false) × (b ≡ false)
or_false a b h = ground arith

-- Two lines at one place are of one product and option.
same_line :
    (s : Stocktake) (p : Place) (l x : StocktakeLine)
    → place_eq p (line_place s l.product_id l) ≡ true
    → place_eq p (line_place s x.product_id x) ≡ true
    → is_line l.product_id l.variant_id x ≡ true
same_line s p l x e e2 =
    let here : p ≡ line_place s l.product_id l = place_eq→eq p (line_place s l.product_id l) e in
    let too : p ≡ line_place s x.product_id x = place_eq→eq p (line_place s x.product_id x) e2 in
    let same : line_place s x.product_id x ≡ line_place s l.product_id l = sym too ∙ here in
    let product : x.product_id ≡ l.product_id = ap (λ (q : Place). q.product_id) same in
    let variant : x.variant_id ≡ l.variant_id = ap (λ (q : Place). q.variant_id) same in
    rw (product, variant, ==_refl l.product_id, opt_eq_refl l.variant_id)

-- No line of the list is at the place.
line_at-none :
    (s : Stocktake) (p : Place) (expected : ℕ → Option ℕ → ℤ) (l : StocktakeLine)
    (ls : List StocktakeLine)
    → place_eq p (line_place s l.product_id l) ≡ true
    → any (is_line l.product_id l.variant_id) ls ≡ false
    → of_lines s p expected ls ≡ pos 0
line_at-none s p expected l [] e h = refl
line_at-none s p expected l (x ∷ ls) e h =
    elim (Bool-cases (place_eq p (line_place s x.product_id x))) [
      | inl e2 ↦
          let twice = same_line s p l x e e2 in
          let once =
            (or_false (is_line l.product_id l.variant_id x)
              (any (is_line l.product_id l.variant_id) ls) h).0 in
          cc
      | inr e2 ↦
          let rest : any (is_line l.product_id l.variant_id) ls ≡ false =
            (or_false (is_line l.product_id l.variant_id x)
              (any (is_line l.product_id l.variant_id) ls) h).1 in
          rw (e2, line_at-none s p expected l ls e rest) (omega int_laws)
    ]

taken_in : (b n : ℤ) → b +ℤ (n -ℤ b) ≡ n
taken_in b n = omega int_laws

-- The variances, added to what was on hand, make up what was counted.
pub of_lines-counted :
    (s : Stocktake) (p : Place) (expected : ℕ → Option ℕ → ℤ) (before : Place → ℤ)
    (ls : List StocktakeLine)
    → Distinct ls
    → All
        (λ (l : StocktakeLine).
          expected l.product_id l.variant_id ≡ before (line_place s l.product_id l))
        ls
    → before p +ℤ of_lines s p expected ls ≡ counted_or (before p) (line_at s p ls)
of_lines-counted s p expected before [] apart reads = +ℤ-zero (before p)
of_lines-counted s p expected before (l ∷ ls) (alone, apart) (read, reads) =
    let here = line_place s l.product_id l in
    elim (Bool-cases (place_eq p here)) [
      | inl e ↦
          let same : before here ≡ before p = ap before (sym (place_eq→eq p here e)) in
          rw (e, line_at-none s p expected l ls e alone, read, same)
            (ap (λ x. before p +ℤ x) (+ℤ-zero _) ∙ taken_in (before p) l.counted_quantity)
      | inr e ↦ rw e (
          ap (λ x. before p +ℤ x) (zero-+ℤ _) ∙ of_lines-counted s p expected before ls apart reads)
    ]
