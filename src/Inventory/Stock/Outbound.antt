-- ===== src/Inventory/Stock/Outbound.antt =====
-- Stock out: `recordOutbound` of src/modules/inventory/stock.service.ts, over any database.
pub mod Effect
pub mod Reconcile
pub mod Taken
pub mod Cover
pub mod Policy
pub mod Success
use stock_mgt.Prelude.{
  ℕ, Bool, true, false, ◌&&◌, not, Option, none, some, List, [], ◌∷◌, ◌++◌, map, ltb, ◌==◌,
  if◌then◌else◌, opt_eq, or_else,
}
use stock_mgt.Prelude.Int.{pos, neg, ltb_ℤ}
use stock_mgt.Prelude.Lists.{select, find}
use stock_mgt.Prelude.Result.{ok, err, Error, throw_if}
use stock_mgt.Inventory.Fefo.{
  AllocatableBatch, Allocation, AllocationResult, allocate_fefo, sort_fefo,
}
use stock_mgt.Inventory.Stock.Tables.{
  Key, StockMovement, StockBalance, StockBatch, OutboundInput, Context,
}
use stock_mgt.Inventory.Stock.Writer.{StockWriter}
use stock_mgt.Inventory.Stock.Calls.{Action, pure, lift, gets, insert_or_throw, ◌>>=◌, ◌>>◌}
use stock_mgt.Inventory.Stock.Service.{
  is_new_stock_or_sale, assert_positive, require_organization_id, assert_may_force, assert_variant,
  apply_to_balance,
}

-- A balance with its batch's dates (the `include` of the two reads); a foreign key sees to it that the
-- batch is there.
abbrev pub with_batch : List StockBatch → StockBalance → AllocatableBatch
with_batch lots b =
    let lot = find (λ (l : StockBatch). l.id == b.key.batch_id) lots in
    record {
      batch_id = b.key.batch_id;
      quantity = b.quantity;
      expiry_date = elim lot [ none ↦ none | some l ↦ l.expiry_date ];
      received_at = elim lot [ none ↦ 0 | some l ↦ l.received_at ];
    }

-- The `where` of the two reads: this product, this option (null for none), this place.
abbrev pub is_at : OutboundInput → StockBalance → Bool
is_at input b =
    (b.key.product_id == input.product_id)
    && opt_eq b.key.variant_id input.variant_id
    && (b.key.location_id == input.location_id)

abbrev pub is_named : Option ℕ → ℕ → Bool
is_named none id = true
is_named (some batch_id) id = id == batch_id

abbrev pub out_key : OutboundInput → ℕ → Key
out_key input batch_id = record {
  product_id = input.product_id;
  variant_id = input.variant_id;
  location_id = input.location_id;
  batch_id = batch_id;
}

module _ {Db : Type 0} (w : StockWriter Db) (ctx : Context) where
  -- The batch that a shortfall hangs on when the product has never been received there.
  abbrev pub placeholder : OutboundInput → ℕ → StockBatch
  placeholder input organization_id = record {
    id = ctx.random_uuid 0;
    organization_id = organization_id;
    product_id = input.product_id;
    lot_code = none;
    expiry_date = none;
    received_at = ctx.now;
    quantity_received = pos 0;
    quantity_paid_for = pos 0;
    total_cost = pos 0;
  }

  unfoldable pub available_batches : OutboundInput → Db → List AllocatableBatch
  available_batches input d = map (with_batch (w.batches d)) (
      select
        (λ b. is_at input b && ltb_ℤ (pos 0) b.quantity && is_named input.batch_id b.key.batch_id)
        (w.balances d))

  unfoldable pub open_placeholder : OutboundInput → Action Db ℕ
  unfolding require_organization_id
  open_placeholder input = do
    organization_id ← lift (require_organization_id ctx)
    insert_or_throw (w.create_batches (placeholder input organization_id ∷ []))
    pure (ctx.random_uuid 0)

  unfoldable pub first_or_placeholder : OutboundInput → List AllocatableBatch → Action Db ℕ
  unfolding open_placeholder
  first_or_placeholder input [] = open_placeholder input
  first_or_placeholder input (first ∷ others) = pure first.batch_id

  unfoldable pub batch_to_bear_shortfall : OutboundInput → Action Db ℕ
  unfolding first_or_placeholder
  batch_to_bear_shortfall input d =
      let known =
        sort_fefo (map (with_batch (w.batches d)) (select (is_at input) (w.balances d))) in
      elim input.batch_id [
        | some batch_id ↦ (ok batch_id, d)
        | none ↦ first_or_placeholder input known d
      ]

  -- The lots to draw on, with one more allocation for what stock does not cover, if that is forced.
  unfoldable pub cover_shortfall : OutboundInput → AllocationResult → Action Db (List Allocation)
  unfolding batch_to_bear_shortfall assert_may_force
  cover_shortfall input plan =
      if ltb 0 plan.shortfall
      then (do
        lift (throw_if (not input.force) Error.conflict)
        lift (assert_may_force ctx input.forced_reason)
        batch_id ← batch_to_bear_shortfall input
        pure (plan.allocations ++ record { batch_id = batch_id; quantity = plan.shortfall } ∷ []))
      else pure plan.allocations

  abbrev pub outbound_movement :
      OutboundInput → ℕ → (first forced : Bool) → Allocation → StockMovement
  outbound_movement input organization_id first forced allocation = record {
    id = if first then input.id else none;
    organization_id = organization_id;
    key = out_key input allocation.batch_id;
    type = input.type;
    quantity = neg (pos allocation.quantity);
    reason = input.reason;
    note = input.note;
    occurred_at = or_else input.occurred_at ctx.now;
    recorded_by_user_id = ctx.user_id;
    reference_type = input.reference_type;
    reference_id = input.reference_id;
    transfer_group_id = input.transfer_group_id;
    is_forced = forced;
    forced_reason = if forced then input.forced_reason else none;
  }

  -- The loop of `recordOutbound`: a movement and a balance for each allocation.
  unfoldable pub write_out :
      OutboundInput → ℕ → (first forced : Bool) → List Allocation → Action Db (List StockMovement)
  write_out input organization_id first forced [] = pure []
  write_out input organization_id first forced (allocation ∷ rest) = do
    let movement = outbound_movement input organization_id first forced allocation
    insert_or_throw (w.create_movements (movement ∷ []))
    apply_to_balance w ctx movement.key (neg (pos allocation.quantity))
    movements ← write_out input organization_id false forced rest
    pure (movement ∷ movements)

  unfoldable pub record_outbound : OutboundInput → Action Db (List StockMovement)
  unfolding assert_positive require_organization_id available_batches cover_shortfall write_out
  record_outbound input = do
    lift (assert_positive input.quantity)
    assert_variant w ctx input.product_id input.variant_id (not (is_new_stock_or_sale input.type))
    available ← gets (available_batches input)
    plan ← lift (allocate_fefo available input.quantity)
    allocations ← cover_shortfall input plan
    organization_id ← lift (require_organization_id ctx)
    write_out input organization_id true (ltb 0 plan.shortfall) allocations
