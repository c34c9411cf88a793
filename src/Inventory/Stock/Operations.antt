-- ===== src/Inventory/Stock/Operations.antt =====
-- src/modules/inventory/stock-operations.service.ts: what a person does to the stock directly, writing
-- it off or on with a reason, and moving it between places. The warning on stock without a cost is
-- logged only, and left out.
pub mod Reads
pub mod Transfer
pub mod Adjust
use stock_mgt.Prelude.{
  ℕ, Bool, true, false, Option, none, some, List, [], ◌∷◌, ◌==◌, if◌then◌else◌, or_else,
}
use stock_mgt.Prelude.Int.{ℤ, pos, abs, ◌*ℤ◌, ltb_ℤ}
use stock_mgt.Prelude.Result.{Result, ok, err, Error, throw_if}
use stock_mgt.Catalog.Units.{Product, ResolvedUnit, resolve_product_unit}
use stock_mgt.Inventory.Locations.{Location, assert_exists, resolve_default_id}
use stock_mgt.Inventory.Stock.Tables.{
  Text, StockMovementType, StockAdjustmentReason, StockMovement, StockBatch, MovementInput,
  InboundInput, OutboundInput, Context,
}
use stock_mgt.Inventory.Stock.Writer.{StockWriter}
use stock_mgt.Inventory.Stock.Calls.{
  Action, pure, lift, gets, insert_or_throw, transaction, ◌>>=◌, ◌>>◌,
}
use stock_mgt.Inventory.Stock.Service.{record_inbound, require_organization_id}
use stock_mgt.Inventory.Stock.Outbound.{record_outbound}

-- The other tables that the operations read.
pub record Directory (Db : Type 0) : Type 0 where
  pub locations : Db → List Location
  pub products : Db → List Product

pub record CreateAdjustment : Type 0 where
  pub id : Option ℕ
  pub product_id : ℕ
  pub variant_id : Option ℕ
  pub location_id : Option ℕ
  pub unit_id : Option ℕ
  pub quantity : ℤ
  pub reason : StockAdjustmentReason
  pub note : Option Text
  pub batch_id : Option ℕ
  pub total_cost : Option ℤ
  pub expiry_date : Option ℕ
  pub lot_code : Option Text
  pub occurred_at : Option ℕ
  pub force : Bool
  pub forced_reason : Option Text

pub record CreateTransfer : Type 0 where
  pub id : Option ℕ
  pub product_id : ℕ
  pub variant_id : Option ℕ
  pub from_location_id : ℕ
  pub to_location_id : ℕ
  pub unit_id : Option ℕ
  pub quantity : ℤ
  pub note : Option Text
  pub occurred_at : Option ℕ
  pub force : Bool
  pub forced_reason : Option Text

pub record TransferResult : Type 0 where
  pub transfer_group_id : ℕ
  pub out : List StockMovement
  pub into : List StockMovement

abbrev pub adjustment_type : StockAdjustmentReason → StockMovementType
adjustment_type StockAdjustmentReason.damage = StockMovementType.damage
adjustment_type _ = StockMovementType.adjustment

abbrev pub in_base_units : ℤ → Result ResolvedUnit → Result ℤ
in_base_units quantity (err e) = err e
in_base_units quantity (ok resolved) = ok (quantity *ℤ pos resolved.unit.factor)

-- What the operations write.
module _ (ctx : Context) where
  abbrev pub write_off : CreateAdjustment → ℕ → ℤ → OutboundInput
  write_off input location_id quantity = record {
    movement = record {
      id = input.id;
      product_id = input.product_id;
      variant_id = input.variant_id;
      location_id = location_id;
      quantity = pos (abs quantity);
      type = adjustment_type input.reason;
      reason = some input.reason;
      note = input.note;
      occurred_at = some (or_else input.occurred_at ctx.now);
      reference_type = none;
      reference_id = none;
      transfer_group_id = none;
    };
    batch_id = input.batch_id;
    force = input.force;
    forced_reason = input.forced_reason;
  }

  abbrev pub write_on : CreateAdjustment → ℕ → ℤ → ℕ → InboundInput
  write_on input location_id quantity batch_id = record {
    movement = record {
      id = input.id;
      product_id = input.product_id;
      variant_id = input.variant_id;
      location_id = location_id;
      quantity = quantity;
      type = StockMovementType.adjustment;
      reason = some input.reason;
      note = input.note;
      occurred_at = some (or_else input.occurred_at ctx.now);
      reference_type = none;
      reference_id = none;
      transfer_group_id = none;
    };
    batch_id = batch_id;
  }

  abbrev pub adjustment_batch : CreateAdjustment → ℤ → ℕ → StockBatch
  adjustment_batch input quantity organization_id = record {
    id = ctx.random_uuid 0;
    organization_id = organization_id;
    product_id = input.product_id;
    lot_code = input.lot_code;
    expiry_date = input.expiry_date;
    received_at = or_else input.occurred_at ctx.now;
    quantity_received = quantity;
    quantity_paid_for = pos 0;
    total_cost = or_else input.total_cost (pos 0);
  }

  abbrev pub transfer_group : CreateTransfer → ℕ
  transfer_group input = or_else input.id (ctx.random_uuid 0)

  abbrev pub transfer_movement :
      CreateTransfer → StockMovementType → (location_id : ℕ) → ℤ → MovementInput
  transfer_movement input type location_id quantity = record {
    id = none;
    product_id = input.product_id;
    variant_id = input.variant_id;
    location_id = location_id;
    quantity = quantity;
    type = type;
    reason = none;
    note = input.note;
    occurred_at = some (or_else input.occurred_at ctx.now);
    reference_type = none;
    reference_id = none;
    transfer_group_id = some (transfer_group input);
  }

  abbrev pub leaving : CreateTransfer → ℤ → OutboundInput
  leaving input quantity = record {
    movement =
        transfer_movement input StockMovementType.transfer_out input.from_location_id quantity;
    batch_id = none;
    force = input.force;
    forced_reason = input.forced_reason;
  }

  abbrev pub arriving : CreateTransfer → StockMovement → InboundInput
  arriving input m = record {
    movement =
        transfer_movement input StockMovementType.transfer_in input.to_location_id
          (pos (abs m.quantity));
    batch_id = m.key.batch_id;
  }

module _ {Db : Type 0} (w : StockWriter Db) (directory : Directory Db) (ctx : Context) where
  -- `input.locationId ?? resolveDefaultId()`, and that it is there.
  unfoldable pub location_of : Option ℕ → Action Db ℕ
  unfolding resolve_default_id
  location_of named = do
    location_id ← (λ d.
        (elim named [ some id ↦ ok id | none ↦ resolve_default_id (directory.locations d) ], d))
    (λ d. lift (assert_exists location_id (directory.locations d)) d)
    pure location_id

  -- `input.quantity * unit.factor`
  unfoldable pub base_quantity :
      (product_id : ℕ) → (variant_id unit_id : Option ℕ) → ℤ → Action Db ℤ
  unfolding resolve_product_unit
  base_quantity product_id variant_id unit_id quantity d =
      lift
        (in_base_units quantity (
          resolve_product_unit (directory.products d) product_id unit_id
            (record { allow_unstocked = false; for_sale = false; variant_id = variant_id })))
        d

  -- The lot that stock is written on to: the one that is named, or a new one.
  unfoldable pub batch_to_write_on : CreateAdjustment → ℤ → ℕ → Option ℕ → Action Db ℕ
  batch_to_write_on input quantity organization_id (some batch_id) = pure batch_id
  batch_to_write_on input quantity organization_id none = do
    insert_or_throw (w.create_batches (adjustment_batch ctx input quantity organization_id ∷ []))
    pure (ctx.random_uuid 0)

  -- The transaction of `adjust` for a quantity that is not below zero.
  unfoldable pub bring_on : CreateAdjustment → ℕ → ℤ → ℕ → Action Db (List StockMovement)
  unfolding batch_to_write_on record_inbound
  bring_on input location_id quantity organization_id = do
    batch_id ← batch_to_write_on input quantity organization_id input.batch_id
    movement ← record_inbound w ctx (write_on ctx input location_id quantity batch_id)
    pure (movement ∷ [])

  unfoldable pub adjust_by : CreateAdjustment → ℕ → ℤ → Action Db (List StockMovement)
  unfolding record_outbound require_organization_id bring_on
  adjust_by input location_id quantity =
      if ltb_ℤ quantity (pos 0)
      then transaction (record_outbound w ctx (write_off ctx input location_id quantity))
      else (do
        organization_id ← lift (require_organization_id ctx)
        transaction (bring_on input location_id quantity organization_id))

  unfoldable pub adjust : CreateAdjustment → Action Db (List StockMovement)
  unfolding location_of base_quantity adjust_by
  adjust input = do
    location_id ← location_of input.location_id
    quantity ← base_quantity input.product_id input.variant_id input.unit_id input.quantity
    adjust_by input location_id quantity

  -- The loop of `transfer`: what has left arrives, lot for lot.
  unfoldable pub arrive : CreateTransfer → List StockMovement → Action Db (List StockMovement)
  unfolding record_inbound
  arrive input [] = pure []
  arrive input (m ∷ out) = do
    movement ← record_inbound w ctx (arriving ctx input m)
    rest ← arrive input out
    pure (movement ∷ rest)

  unfoldable pub move_between : CreateTransfer → ℤ → Action Db TransferResult
  unfolding record_outbound arrive
  move_between input quantity = do
    out ← record_outbound w ctx (leaving ctx input quantity)
    into ← arrive input out
    pure (record { transfer_group_id = transfer_group ctx input; out = out; into = into })

  unfoldable pub transfer : CreateTransfer → Action Db TransferResult
  unfolding base_quantity move_between
  transfer input = do
    lift (throw_if (input.from_location_id == input.to_location_id) Error.bad_request)
    (λ d. lift (assert_exists input.from_location_id (directory.locations d)) d)
    (λ d. lift (assert_exists input.to_location_id (directory.locations d)) d)
    quantity ← base_quantity input.product_id input.variant_id input.unit_id input.quantity
    transaction (move_between input quantity)
