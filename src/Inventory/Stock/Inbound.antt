-- ===== src/Inventory/Stock/Inbound.antt =====
-- What `recordInbound` of src/modules/inventory/stock.service.ts does to the ledger.
use stock_mgt.Prelude.{◌≡◌, refl, ◌∙◌, ap}
use stock_mgt.Prelude.Int.{pos, ◌+ℤ◌, ◌≤ℤ◌}
use stock_mgt.Prelude.Result.{ok}
use stock_mgt.Inventory.Stock.Tables.{Key, key_eq, StockMovement, InboundInput, Context}
use stock_mgt.Inventory.Stock.Writer.{StockWriter, IsDatabase}
use stock_mgt.Inventory.Stock.Calls.{Done, Done-eq, Done->>=, Checked, lift-Checked}
use stock_mgt.Inventory.Stock.Service.{inbound_movement, record_inbound}
use stock_mgt.Inventory.Stock.Service.Guards.{assert_positive-ok, assert_variant-same}
use stock_mgt.Inventory.Stock.Ledger.{
  on_key, held, Posted, Posted-Reconciles, Posted-same, Reconciles,
}
use stock_mgt.Inventory.Stock.Ledger.Post.{Inserted, Applied, insert-Inserted, apply-Applied}

abbrev pub in_key : InboundInput → Key
in_key input = record {
  product_id = input.product_id;
  variant_id = input.variant_id;
  location_id = input.location_id;
  batch_id = input.batch_id;
}

module _ {Db : Type 0} (w : StockWriter Db) (laws : IsDatabase w) (ctx : Context) where
  unfoldable pub Received : InboundInput → Db → StockMovement → Db → Type 0
  Received input d m d' =
      Posted w d d' (λ t. on_key t (in_key input) input.quantity)
      × (m.quantity ≡ input.quantity)
      × (pos 1 ≤ℤ input.quantity)

  pub record_inbound-Received :
      (input : InboundInput) (d : Db) → Done (Received input d) (record_inbound w ctx input d)
  unfolding record_inbound Received
  record_inbound-Received input d = Done->>= (Checked _ d) _ _ _ (lift-Checked _ d) λ _ d1 h1.
      Done->>= (λ _ d2. d2 ≡ d1) _ _ _ (assert_variant-same w ctx _ _ _ d1)
        λ _ d2 h2. Done->>= (Checked _ d2) _ _ _ (lift-Checked _ d2) λ organization_id d3 h3.
          let m = inbound_movement w ctx input organization_id in
          Done->>= (Inserted w m d3) _ _ _ (insert-Inserted w laws m d3) λ _ d4 h4.
            Done->>= (Applied w m.key input.quantity d4) _ _ _
              (apply-Applied w laws ctx m.key input.quantity d4)
              λ _ d5 h5.
                let back = h3.0 ∙ h2 ∙ h1.0 in
                Done.returned _ _ (
                  Posted-same w d d3 d5 _ (ap w.movements back) (ap w.balances back)
                      (λ k. ((h5 k).0 ∙ (h4 k).0, rw ((h5 k).1, (h4 k).1))),
                  refl,
                  assert_positive-ok _ h1.1,
                )

  -- A call that returns has put in a positive quantity: the balance of its lot has grown by that
  -- much, every other balance is as it was, and the ledger reconciles as before.
  pub record_inbound-Reconciles :
      (input : InboundInput) (d : Db) {m : StockMovement} {d' : Db}
      → record_inbound w ctx input d ≡ (ok m, d')
      → Reconciles w d
      → Reconciles w d'
        × (pos 1 ≤ℤ m.quantity)
        × ((k : Key) → held w k d' ≡ held w k d +ℤ on_key (key_eq k) (in_key input) input.quantity)
  unfolding Received
  record_inbound-Reconciles input d {m} {d'} e before =
      let (posted, same, positive) = Done-eq m d' (record_inbound-Received input d) e in
      (Posted-Reconciles w d d' _ posted before, rw same positive, λ k. (posted (key_eq k)).1)
