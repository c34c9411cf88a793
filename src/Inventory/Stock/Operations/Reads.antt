-- ===== src/Inventory/Stock/Operations/Reads.antt =====
-- The reads of src/modules/inventory/stock-operations.service.ts leave the database as it is.
use stock_mgt.Prelude.{ℕ, ◌≡◌, ◌∙◌, Option}
use stock_mgt.Prelude.Int.{ℤ}
use stock_mgt.Inventory.Stock.Tables.{Context}
use stock_mgt.Inventory.Stock.Writer.{StockWriter}
use stock_mgt.Inventory.Stock.Calls.{Done, Done->>=, Done-map, Checked, lift-Checked}
use stock_mgt.Inventory.Stock.Operations.{Directory, base_quantity, location_of}

module _ {Db : Type 0} (w : StockWriter Db) (directory : Directory Db) (ctx : Context) where
  pub base_quantity-same :
      (product_id : ℕ) (variant_id unit_id : Option ℕ) (quantity : ℤ) (d : Db)
      → Done
          (λ _ d'. d' ≡ d)
          (base_quantity w directory ctx product_id variant_id unit_id quantity d)
  unfolding base_quantity
  base_quantity-same product_id variant_id unit_id quantity d =
      Done-map _ (λ _ _ h. h.0) (lift-Checked _ d)

  pub location_of-same :
      (named : Option ℕ) (d : Db) → Done (λ _ d'. d' ≡ d) (location_of w directory ctx named d)
  unfolding location_of
  location_of-same named d = Done->>= (Checked _ d) _ _ _ (lift-Checked _ d) λ id d1 h1.
      Done->>= (Checked _ d1) _ _ _ (lift-Checked _ d1) λ _ d2 h2. Done.returned _ _ (h2.0 ∙ h1.0)
