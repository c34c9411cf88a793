-- ===== src/Inventory/Stock/Operations/Adjust.antt =====
-- What `adjust` of src/modules/inventory/stock-operations.service.ts does to the stock.
use stock_mgt.Prelude.{
  ℕ, ◌≡◌, refl, ◌∙◌, ap, true, Option, none, some, List, arith, inl, inr, Bool-cases,
}
use stock_mgt.Prelude.Int.{ℤ, pos, neg, abs, ◌+ℤ◌, ◌-ℤ◌, ltb_ℤ}
use stock_mgt.Prelude.Result.{ok}
use stock_mgt.Inventory.Stock.Tables.{StockMovement, Context}
use stock_mgt.Inventory.Stock.Writer.{StockWriter, IsDatabase}
use stock_mgt.Inventory.Stock.Calls.{
  Done, Done-eq, Done->>=, Done-map, Done-self, transaction-Done, Checked, lift-Checked,
}
use stock_mgt.Inventory.Stock.Outbound.{record_outbound}
use stock_mgt.Inventory.Stock.Outbound.Effect.{drawn, Opened, insert_batch-Opened}
use stock_mgt.Inventory.Stock.Outbound.Reconcile.{Recorded, record_outbound-Recorded}
use stock_mgt.Inventory.Stock.Ledger.{
  Test, on_key, Posted, Posted-same, Posted-Reconciles, Reconciles,
}
use stock_mgt.Inventory.Stock.Inbound.{Received, record_inbound-Received, in_key}
use stock_mgt.Inventory.Stock.OnHand.{Place, at_place, at, on_hand, Changed, movements_at-Outgoing}
use stock_mgt.Inventory.Stock.Operations.{
  Directory, CreateAdjustment, base_quantity, location_of, adjust, adjust_by, bring_on, write_on,
  write_off, batch_to_write_on,
}
use stock_mgt.Inventory.Stock.Operations.Reads.{base_quantity-same, location_of-same}

neg-abs_of_neg : (q : ℤ) → ltb_ℤ q (pos 0) ≡ true → neg (pos (abs q)) ≡ q
unfolding ◌-ℤ◌
neg-abs_of_neg q h = ground arith

-- Where an adjustment is made.
abbrev pub adjusted_place : CreateAdjustment → ℕ → Place
adjusted_place input location_id = record {
  product_id = input.product_id;
  variant_id = input.variant_id;
  location_id = location_id;
}

module _ {Db : Type 0} (w : StockWriter Db) (laws : IsDatabase w) (directory : Directory Db)
    (ctx : Context) where
  batch_to_write_on-Opened :
      (input : CreateAdjustment) (q : ℤ) (organization_id : ℕ) (named : Option ℕ) (d : Db)
      → Done
          (Opened w laws ctx d)
          (batch_to_write_on w directory ctx input q organization_id named d)
  unfolding batch_to_write_on
  batch_to_write_on-Opened input q organization_id (some id) d = Done.returned _ _ (refl, refl)
  batch_to_write_on-Opened input q organization_id none d =
      Done->>= (λ _. Opened w laws ctx d 0) _ _ _ (insert_batch-Opened w laws ctx _ d)
        λ _ d1 h1. Done.returned _ _ h1

  -- Stock has changed by `q` at one place.
  abbrev WrittenBy : Place → ℤ → Db → List StockMovement → Db → Type 0
  WrittenBy here q d _ d' =
      (change : Test → ℤ) × Posted w d d' change × ((p : Place) → change (at_place p) ≡ at p here q)

  bring_on-Posted :
      (input : CreateAdjustment) (location_id : ℕ) (q : ℤ) (organization_id : ℕ) (d : Db)
      → Done
          (WrittenBy (adjusted_place input location_id) q d)
          (bring_on w directory ctx input location_id q organization_id d)
  unfolding bring_on Received
  bring_on-Posted input location_id q organization_id d =
      Done->>= _ _ _ _ (batch_to_write_on-Opened input q organization_id input.batch_id d)
        λ b d1 h1.
          Done->>= _ _ _ _
            (record_inbound-Received w laws ctx (write_on ctx input location_id q b) d1)
            λ m d2 h2. Done.returned _ _ (
              (λ t. on_key t (in_key (write_on ctx input location_id q b)) q),
              Posted-same w d d1 d2 _ h1.0 h1.1 h2.0,
              λ p. refl,
            )

  write_off-Posted :
      (input : CreateAdjustment) (location_id : ℕ) (q : ℤ) (d : Db)
      → ltb_ℤ q (pos 0) ≡ true
      → Done
          (WrittenBy (adjusted_place input location_id) q d)
          (record_outbound w ctx (write_off ctx input location_id q) d)
  unfolding Recorded
  write_off-Posted input location_id q d below =
      Done-map _
        (λ ms d' h.
          let (allocations, posted, total, bounded, as_moved, outgoing, positive) = h in
          (
            drawn (write_off ctx input location_id q) allocations,
            posted,
            λ p.
                as_moved (at_place p)
                ∙ movements_at-Outgoing (write_off ctx input location_id q) p ms outgoing
                ∙ ap (at p (adjusted_place input location_id)) (total ∙ neg-abs_of_neg q below),
          ))
        (record_outbound-Recorded w laws ctx (write_off ctx input location_id q) d)

  adjust_by-Posted :
      (input : CreateAdjustment) (location_id : ℕ) (q : ℤ) (d : Db)
      → Done
          (WrittenBy (adjusted_place input location_id) q d)
          (adjust_by w directory ctx input location_id q d)
  unfolding adjust_by
  adjust_by-Posted input location_id q d = elim (Bool-cases (ltb_ℤ q (pos 0))) [
    | inl e ↦ rw e (transaction-Done _ d (write_off-Posted input location_id q d e))
    | inr e ↦ rw e (
        Done->>= (Checked _ d) _ _ _ (lift-Checked _ d) λ organization_id d1 h1.
          Done-map _
            (λ ms d' h.
              (h.0, Posted-same w d d1 d' _ (ap w.movements h1.0) (ap w.balances h1.0) h.1, h.2))
            (transaction-Done _ d1 (bring_on-Posted input location_id q organization_id d1)))
  ]

  -- The place and the quantity, in base units, of an adjustment, and what it did.
  unfoldable pub Adjusted : CreateAdjustment → Db → List StockMovement → Db → Type 0
  Adjusted input d ms d' =
      (location_id : ℕ) × (q : ℤ) × (location_of w directory ctx input.location_id d
        ≡ (ok location_id, d))
      × (base_quantity w directory ctx input.product_id input.variant_id input.unit_id
            input.quantity d
          ≡ (ok q, d))
      × WrittenBy (adjusted_place input location_id) q d ms d'

  pub adjust-Adjusted :
      (input : CreateAdjustment) (d : Db) → Done (Adjusted input d) (adjust w directory ctx input d)
  unfolding adjust Adjusted
  adjust-Adjusted input d =
      Done->>= _ _ _ _ (Done-self d _ (location_of-same w directory ctx input.location_id d))
        λ location_id d1 h1.
          Done->>= _ _ _ _
            (Done-self d1 _ (
              base_quantity-same w directory ctx input.product_id input.variant_id input.unit_id
                input.quantity d1))
            λ q d2 h2.
              let back = h2.0 ∙ h1.0 in
              Done-map _
                (λ ms d' h. (
                  location_id,
                  q,
                  h1.1,
                  rw (← h1.0) h2.1,
                  (
                    h.0,
                    Posted-same w d d2 d' _ (ap w.movements back) (ap w.balances back) h.1,
                    h.2,
                  ),
                ))
                (adjust_by-Posted input location_id q d2)

  -- An adjustment that returns has changed what is on hand by its quantity, in base units and of
  -- either sign, at the place that was named, or the default one, and at no other; and the ledger
  -- reconciles as before.
  pub adjust-changes :
      (input : CreateAdjustment) (d : Db) {ms : List StockMovement} {d' : Db}
      → adjust w directory ctx input d ≡ (ok ms, d')
      → Reconciles w d
      → (location_id : ℕ) × (q : ℤ) × (location_of w directory ctx input.location_id d
          ≡ (ok location_id, d))
        × (base_quantity w directory ctx input.product_id input.variant_id input.unit_id
              input.quantity d
            ≡ (ok q, d))
        × Changed w (adjusted_place input location_id) q d d'
        × Reconciles w d'
  unfolding Adjusted
  adjust-changes input d {ms} {d'} e before =
      let (location_id, q, at_location, reads, (change, posted, here)) =
        Done-eq ms d' (adjust-Adjusted input d) e in
      (
        location_id,
        q,
        at_location,
        reads,
        (λ p. (posted (at_place p)).1 ∙ ap (λ x. on_hand w p d +ℤ x) (here p)),
        Posted-Reconciles w d d' _ posted before,
      )
