-- ===== src/Tests/Floor.antt =====
-- Adjustments and transfers over the database in memory, and the shop that they change.
use stock_mgt.Prelude.{ℕ, ◌≡◌, refl, Bool, true, false, Option, none, some, List, [], ◌∷◌}
use stock_mgt.Prelude.Int.{ℤ, pos, negsuc, neg, ◌+ℤ◌, ◌*ℤ◌, ◌-ℤ◌, ◌≤ℤ◌}
use stock_mgt.Prelude.Result.{Result, ok, err}
use stock_mgt.Prelude.Sort.{sort, insert_sorted}
use stock_mgt.Catalog.Units.{Product, ProductUnit, resolve_product_unit}
use stock_mgt.Catalog.Variants.{check_variant}
use stock_mgt.Inventory.Fefo.{sort_fefo, allocate_fefo, allocate_loop, goes_before}
use stock_mgt.Inventory.Locations.{Location, resolve_default_id}
use stock_mgt.Inventory.Stock.Tables.{StockAdjustmentReason, StockMovement}
use stock_mgt.Inventory.Stock.Memory.{Memory, memory, memory-IsDatabase}
use stock_mgt.Inventory.Stock.Calls.{transaction, ◌>>=◌}
use stock_mgt.Inventory.Stock.Service.{
  record_inbound, assert_variant, assert_positive, require_organization_id, apply_to_balance,
}
use stock_mgt.Inventory.Stock.Outbound.{
  record_outbound, available_batches, cover_shortfall, write_out,
}
use stock_mgt.Inventory.Stock.Ledger.{Reconciles, held_where}
use stock_mgt.Inventory.Stock.OnHand.{Place, on_hand, at, Changed}
use stock_mgt.Inventory.Stock.Operations.{
  Directory, CreateAdjustment, CreateTransfer, TransferResult, location_of, base_quantity, adjust,
  adjust_by, transfer, move_between, arrive,
}
use stock_mgt.Inventory.Stock.Operations.Transfer.{transfer-conserves, source, destination, of_lot}
use stock_mgt.Inventory.Stock.Operations.Adjust.{adjust-changes, adjusted_place}
use stock_mgt.Inventory.Stock.Reach.{Reach, Step, Reach-Reconciles}
use stock_mgt.Inventory.Stock.Refine.Steps.{Obeyed, Asked, has_returned, Step-refines}
use stock_mgt.Tests.Stock.{empty, owner, delivery, stocked, stocked-Reconciles}

abbrev pub location : ℕ → Bool → Location
location id is_default = record {
  id = id;
  name = [];
  description = none;
  sort_order = 10;
  is_default = is_default;
  is_deleted = false;
}

abbrev pub unit : ℕ → ℕ → ProductUnit
unit id factor = record { id = id; factor = factor; is_default_selling = false; is_sellable = true }

abbrev pub soap : Product
soap = record {
  id = 10;
  is_deleted = false;
  track_stock = true;
  units = unit 1 1 ∷ unit 2 3 ∷ [];
  variants = [];
}

abbrev pub directory : Directory Memory
directory = record {
  locations = λ d. location 20 true ∷ location 21 false ∷ [];
  products = λ d. soap ∷ [];
}

-- One pack of three goes from the store to the van.
abbrev to_the_van : CreateTransfer
to_the_van = record {
  id = none;
  product_id = 10;
  variant_id = none;
  from_location_id = 20;
  to_location_id = 21;
  unit_id = some 2;
  quantity = pos 1;
  note = none;
  occurred_at = none;
  force = false;
  forced_reason = none;
}

abbrev van_loaded : Result TransferResult × Memory
van_loaded = transfer memory directory owner to_the_van stocked

abbrev result_of : Result TransferResult → TransferResult
result_of (ok r) = r
result_of (err e) = record { transfer_group_id = 0; out = []; into = [] }

van-runs : van_loaded ≡ (ok (result_of van_loaded.0), van_loaded.1)
unfolding transfer base_quantity resolve_product_unit check_variant move_between arrive
    record_inbound record_outbound available_batches cover_shortfall write_out transaction
    assert_positive require_organization_id apply_to_balance assert_variant ◌>>=◌ allocate_fefo
    allocate_loop sort_fefo goes_before sort insert_sorted ◌*ℤ◌ ◌-ℤ◌
van-runs = refl

transfer-conserves_example :
    (q : ℤ) × (base_quantity memory directory owner 10 none (some 2) (pos 1) stocked
      ≡ (ok q, stocked))
    × (pos 1 ≤ℤ q)
    × ((p : Place)
        → on_hand memory p van_loaded.1
          ≡ on_hand memory p stocked
            +ℤ (at p (source to_the_van) (neg q) +ℤ at p (destination to_the_van) q))
    × ((product_id : ℕ) (variant_id : Option ℕ) (batch_id : ℕ)
        → held_where memory (of_lot product_id variant_id batch_id) van_loaded.1
          ≡ held_where memory (of_lot product_id variant_id batch_id) stocked)
    × Reconciles memory van_loaded.1
transfer-conserves_example =
    transfer-conserves memory memory-IsDatabase directory owner to_the_van stocked van-runs
      stocked-Reconciles

-- Two are broken, at the default location.
abbrev broken : CreateAdjustment
broken = record {
  id = none;
  product_id = 10;
  variant_id = none;
  location_id = none;
  unit_id = none;
  quantity = negsuc 1;
  reason = StockAdjustmentReason.damage;
  note = none;
  batch_id = none;
  total_cost = none;
  expiry_date = none;
  lot_code = none;
  occurred_at = none;
  force = false;
  forced_reason = none;
}

abbrev written_off : Result (List StockMovement) × Memory
written_off = adjust memory directory owner broken stocked

abbrev movements_of : Result (List StockMovement) → List StockMovement
movements_of (ok ms) = ms
movements_of (err e) = []

broken-runs : written_off ≡ (ok (movements_of written_off.0), written_off.1)
unfolding adjust adjust_by location_of resolve_default_id base_quantity resolve_product_unit
    check_variant record_inbound record_outbound available_batches cover_shortfall write_out
    transaction assert_positive require_organization_id apply_to_balance assert_variant ◌>>=◌
    allocate_fefo allocate_loop sort_fefo goes_before sort insert_sorted ◌*ℤ◌ ◌-ℤ◌
broken-runs = refl

adjust-changes_example :
    (location_id : ℕ) × (q : ℤ) × (location_of memory directory owner none stocked
      ≡ (ok location_id, stocked))
    × (base_quantity memory directory owner 10 none none (negsuc 1) stocked ≡ (ok q, stocked))
    × Changed memory (adjusted_place broken location_id) q stocked written_off.1
    × Reconciles memory written_off.1
adjust-changes_example =
    adjust-changes memory memory-IsDatabase directory owner broken stocked broken-runs
      stocked-Reconciles

Reach-Reconciles_example :
    Reconciles memory
      (transaction
        (transfer memory directory owner to_the_van)
        (transaction (record_inbound memory owner delivery) empty).1).1
Reach-Reconciles_example = Reach-Reconciles memory memory-IsDatabase directory refl refl (
    Reach.next (Reach.next Reach.here (Step.inbound owner delivery empty)) (
      Step.transferring owner to_the_van
        (transaction (record_inbound memory owner delivery) empty).1))

Step-refines_example :
    Obeyed memory stocked
      (transaction (transfer memory directory owner to_the_van) stocked).1
      (has_returned memory directory (Step.transferring owner to_the_van stocked))
      (Asked memory directory (Step.transferring owner to_the_van stocked))
Step-refines_example =
    Step-refines memory memory-IsDatabase directory (Step.transferring owner to_the_van stocked)
