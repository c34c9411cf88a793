-- ===== src/Inventory/Stocktake/Post/Over.antt =====
-- The lines of a count that are over: what their loop in `postProduct` of
-- src/modules/inventory/stocktake.service.ts puts in, on whatever lots.
use stock_mgt.Prelude.{
  ℕ, ◌+◌, ◌-◌, min, ◌≡◌, refl, ◌∙◌, ap, Option, none, List, [], ◌∷◌, arith, ltb, ◌==◌, inl, inr,
  Bool-cases, Option-cases,
}
use stock_mgt.Prelude.Int.{ℤ, pos, ◌+ℤ◌, int_laws, +ℤ_assoc, +ℤ-pos}
use stock_mgt.Prelude.Lists.{sum_ℤ}
use stock_mgt.Inventory.Stock.Tables.{StockMovementType, StockBalance, Context}
use stock_mgt.Inventory.Stock.Writer.{StockWriter, IsDatabase}
use stock_mgt.Inventory.Stock.Calls.{Done, Done->>=, Done-map, Checked, lift-Checked}
use stock_mgt.Inventory.Stock.Ledger.{balances_at, held_where}
use stock_mgt.Inventory.Stock.Outbound.Effect.{Opened, insert_batch-Opened}
use stock_mgt.Inventory.Stock.OnHand.{
  Place, at_place, at, on_hand, Changed, Changed-same, Changed-then, record_inbound-Changed,
}
use stock_mgt.Inventory.Stocktake.Rows.{Stocktake, StocktakeLine}
use stock_mgt.Inventory.Stocktake.Post.{
  Variance, Freed, amount, in_to, invent_lot, batch_for_surplus, arrive_on, write_on_rest,
  post_over, newest_here, newest_anywhere,
}
use stock_mgt.Inventory.Stocktake.Post.Short.{line_place, not_positive}

-- What the lines that are over gain at a place.
abbrev pub gained : Stocktake → ℕ → Place → List Variance → ℤ
gained s product_id p = sum_ℤ (λ v. at p (line_place s product_id v.line) (pos (amount v)))

module _ {Db : Type 0} (w : StockWriter Db) (laws : IsDatabase w) (ctx : Context) (s : Stocktake)
    (product_id : ℕ) where
  invent_lot-same :
      (n : ℕ) (d : Db)
      → Done (λ _ d'. w.balances d' ≡ w.balances d) (invent_lot w ctx n product_id d)
  unfolding invent_lot
  invent_lot-same n d = Done->>= (Checked _ d) _ _ _ (lift-Checked _ d) λ o d1 h1.
      Done->>= (λ _. Opened w laws ctx d1 0) _ _ _ (insert_batch-Opened w laws ctx _ d1)
        λ _ d2 h2. Done.returned _ _ (h2.1 ∙ ap w.balances h1.0)

  -- Finding the lot changes no balance.
  batch_for_surplus-same :
      (n : ℕ) (d : Db)
      → Done
          (λ _ d'. w.balances d' ≡ w.balances d)
          (batch_for_surplus w ctx n product_id s.location_id d)
  unfolding batch_for_surplus
  batch_for_surplus-same n d = elim (Option-cases (newest_here w ctx product_id s.location_id d)) [
    | inr (here, e) ↦ rw (batch_for_surplus, e) (Done.returned _ _ refl)
    | inl e ↦ elim (Option-cases (newest_anywhere w ctx product_id d)) [
      | inr (anywhere, e2) ↦ rw (batch_for_surplus, e, e2) (Done.returned _ _ refl)
      | inl e2 ↦ rw (batch_for_surplus, e, e2) (invent_lot-same n d)
    ]
  ]

  write_on_rest-Changed :
      (group : Option ℕ) (n : ℕ) (line : StocktakeLine) (wanted : ℕ) (d : Db)
      → Done
          (λ _ d'. Changed w (line_place s product_id line) (pos wanted) d d')
          (write_on_rest w ctx s product_id group n line wanted d)
  unfolding write_on_rest held_where
  write_on_rest-Changed group n line wanted d = elim (Bool-cases (ltb 0 wanted)) [
    | inl e ↦ rw e (
        Done->>= _ _ _ _ (batch_for_surplus-same n d) λ batch_id d1 h1.
          Done->>= _ _ _ _
            (record_inbound-Changed w laws ctx
              (in_to s product_id line StockMovementType.adjustment none wanted batch_id) d1)
            λ m d2 h2. Done.returned _ _ λ p.
              h2.0 p
              ∙ ap
                  (λ (bs : List StockBalance).
                    balances_at (at_place p) bs +ℤ at p (line_place s product_id line) (pos wanted))
                  h1)
    | inr e ↦ rw e (
        let nothing : pos wanted ≡ pos 0 = ap pos (not_positive wanted e) in
        Done.returned _ _ (rw nothing (Changed-same w (line_place s product_id line) d)))
  ]

  -- What has arrived and what is still wanted make up what was wanted.
  abbrev Arrived : StocktakeLine → ℕ → Db → List Freed × ℕ → Db → Type 0
  Arrived line wanted d r d' =
      (n : ℕ) × (n + r.1 ≡ wanted) × Changed w (line_place s product_id line) (pos n) d d'

  arrive_on-Arrived :
      (group : Option ℕ) (line : StocktakeLine) (wanted : ℕ) (freed : List Freed) (d : Db)
      → Done (Arrived line wanted d) (arrive_on w ctx s product_id group line wanted freed d)
  unfolding arrive_on
  arrive_on-Arrived group line wanted [] d =
      Done.returned _ _ (0, omega arith, Changed-same w (line_place s product_id line) d)
  arrive_on-Arrived group line wanted (lot ∷ freed) d = elim (Bool-cases (ltb 0 wanted)) [
    | inr e ↦
        rw e (Done.returned _ _ (0, omega arith, Changed-same w (line_place s product_id line) d))
    | inl e ↦ rw e (
        let taking = min wanted lot.quantity in
        Done->>= _ _ _ _
          (record_inbound-Changed w laws ctx
            (in_to s product_id line StockMovementType.transfer_in group taking lot.batch_id) d)
          λ m d1 h1. elim (Bool-cases ((lot.quantity - taking) == 0)) [
            | inr e2 ↦ rw e2 (Done.returned _ _ (taking, omega arith, h1.0))
            | inl e2 ↦ rw e2 (
                Done-map _
                  (λ r d' h. (
                    taking + h.0,
                    omega (arith, h.1),
                    λ p.
                        Changed-then w (line_place s product_id line) _ _ d d1 d' h1.0 h.2 p
                        ∙ ap (λ x. on_hand w p d +ℤ at p (line_place s product_id line) x)
                            (+ℤ-pos taking h.0),
                  ))
                  (arrive_on-Arrived group line (wanted - taking) freed d1))
          ])
  ]

  -- Each line that is over gains just what it is over by.
  pub post_over-gained :
      (group : Option ℕ) (n : ℕ) (freed : List Freed) (over : List Variance) (d : Db)
      → Done
          (λ _ d'. (p : Place) → on_hand w p d' ≡ on_hand w p d +ℤ gained s product_id p over)
          (post_over w ctx s product_id group n freed over d)
  unfolding post_over
  post_over-gained group n freed [] d = Done.returned _ _ λ p. omega int_laws
  post_over-gained group n freed (v ∷ over) d =
      let here = line_place s product_id v.line in
      Done->>= _ _ _ _ (arrive_on-Arrived group v.line (amount v) freed d) λ r d1 h1.
        Done->>= _ _ _ _ (write_on_rest-Changed group n v.line r.1 d1) λ _ d2 h2.
          Done-map _
            (λ _ d3 h3 p.
              let both : at p here (pos h1.0 +ℤ pos r.1) ≡ at p here (pos (amount v)) =
                ap (at p here) (+ℤ-pos h1.0 r.1 ∙ ap pos h1.1) in
              rw (h3 p, Changed-then w here _ _ d d1 d2 h1.2 h2 p, both) (+ℤ_assoc _ _ _))
            (post_over-gained group n r.0 over d2)
