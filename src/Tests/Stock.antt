-- ===== src/Tests/Stock.antt =====
-- The stock service over the database in memory.
use stock_mgt.Prelude.{ℕ, ◌≡◌, refl, ◌+◌, false, none, some, List, [], ◌∷◌, arith}
use stock_mgt.Prelude.Int.{ℤ, pos, neg, ◌+ℤ◌, ◌≤ℤ◌}
use stock_mgt.Prelude.Lists.{sum_ℤ}
use stock_mgt.Prelude.Result.{Result, ok, err, Error}
use stock_mgt.Prelude.Sort.{sort, insert_sorted}
use stock_mgt.Inventory.Fefo.{sort_fefo, allocate_fefo, allocate_loop, goes_before}
use stock_mgt.Inventory.Stock.Tables.{
  key_eq, StockMovement, StockMovementType, OrgRole, MovementInput, InboundInput, OutboundInput,
  NewLotLine, Context, Key,
}
use stock_mgt.Inventory.Stock.Memory.{Memory, memory, memory-IsDatabase}
use stock_mgt.Inventory.Stock.Calls.{◌>>=◌}
use stock_mgt.Inventory.Stock.Service.{
  record_inbound, inbound_movement, assert_variant, assert_positive, require_organization_id,
  apply_to_balance,
}
use stock_mgt.Inventory.Stock.Outbound.{record_outbound, available_batches}
use stock_mgt.Inventory.Stock.Outbound.Taken.{record_outbound-Reconciles}
use stock_mgt.Inventory.Stock.Outbound.Reconcile.{OtherStock}
use stock_mgt.Inventory.Stock.Outbound.Effect.{Outgoing}
use stock_mgt.Inventory.Stock.OnHand.{Place, place, at, on_hand}
use stock_mgt.Inventory.Stock.Outbound.Cover.{record_outbound-nonneg}
use stock_mgt.Inventory.Stock.Outbound.Success.{record_outbound-succeeds}
use stock_mgt.Inventory.Stock.Outbound.Policy.{record_outbound-refused, Refusal}
use stock_mgt.Inventory.Fefo.Cover.{available}
use stock_mgt.Inventory.Stock.Lots.{
  record_new_lots, assert_all_positive, assert_variants, with_ids, brought,
}
use stock_mgt.Inventory.Stock.Lots.Effect.{record_new_lots-Reconciles}
use stock_mgt.Inventory.Stock.Options.{move_into_variant, move_balances, move_half, codes}
use stock_mgt.Inventory.Stock.Options.Effect.{move_into_variant-moves, stock_key}
use stock_mgt.Inventory.Stock.Inbound.{record_inbound-Reconciles, in_key}
use stock_mgt.Inventory.Stock.Ledger.{
  Reconciles, held, on_key, moved_where, held_where, movements_at,
}

abbrev pub empty : Memory
empty = record {
  movements = [];
  balances = [];
  batches = [];
  variants = [];
  one_row = λ k. omega arith;
}

abbrev pub owner : Context
owner = record {
  user_id = some 7;
  organization_id = some 1;
  org_role = some OrgRole.owner;
  now = 1_000;
  random_uuid = λ n. 500 + n;
}

abbrev pub of_ten : ℤ → StockMovementType → MovementInput
of_ten quantity type = record {
  id = none;
  product_id = 10;
  variant_id = none;
  location_id = 20;
  quantity = quantity;
  type = type;
  reason = none;
  note = none;
  occurred_at = none;
  reference_type = none;
  reference_id = none;
  transfer_group_id = none;
}

abbrev pub delivery : InboundInput
delivery = record { movement = of_ten (pos 6) StockMovementType.receipt; batch_id = 30 }

-- The lot has no stock yet.
abbrev pub opened : Memory
opened = record empty {
  batches =
      record {
        id = 30;
        organization_id = 1;
        product_id = 10;
        lot_code = none;
        expiry_date = some 90_000;
        received_at = 900;
        quantity_received = pos 6;
        quantity_paid_for = pos 6;
        total_cost = pos 60_000;
      }
      ∷ [];
}

abbrev pub stocked : Memory
stocked = (record_inbound memory owner delivery opened).1

abbrev delivered : StockMovement
delivered = inbound_movement memory owner delivery 1

delivery-runs : record_inbound memory owner delivery opened ≡ (ok delivered, stocked)
unfolding record_inbound assert_positive require_organization_id apply_to_balance assert_variant
    ◌>>=◌
delivery-runs = refl

opened-Reconciles : Reconciles memory opened
unfolding moved_where held_where
opened-Reconciles k = refl

record_inbound-Reconciles_example :
    Reconciles memory stocked
    × (pos 1 ≤ℤ pos 6)
    × ((k : Key)
        → held memory k stocked
          ≡ held memory k opened +ℤ on_key (key_eq k) (in_key delivery) (pos 6))
record_inbound-Reconciles_example =
    record_inbound-Reconciles memory memory-IsDatabase owner delivery opened delivery-runs
      opened-Reconciles

abbrev sale : ℤ → OutboundInput
sale quantity = record {
  movement = of_ten quantity StockMovementType.sale;
  batch_id = none;
  force = false;
  forced_reason = none;
}

abbrev movements_of : Result (List StockMovement) → List StockMovement
movements_of (ok ms) = ms
movements_of (err e) = []

abbrev sold : Memory
sold = (record_outbound memory owner (sale (pos 4)) stocked).1

abbrev sold_movements : List StockMovement
sold_movements = movements_of (record_outbound memory owner (sale (pos 4)) stocked).0

sale-runs : record_outbound memory owner (sale (pos 4)) stocked ≡ (ok sold_movements, sold)
unfolding record_inbound record_outbound assert_positive require_organization_id apply_to_balance
    assert_variant ◌>>=◌ allocate_fefo allocate_loop sort_fefo goes_before sort insert_sorted
sale-runs = refl

pub stocked-Reconciles : Reconciles memory stocked
stocked-Reconciles = record_inbound-Reconciles_example.0

-- The same product in another place.
abbrev pub elsewhere : Key
elsewhere = record { product_id = 10; variant_id = none; location_id = 21; batch_id = 30 }

record_outbound-Reconciles_example :
    (pos 1 ≤ℤ pos 4)
    × ((p : Place)
        → on_hand memory p sold
          ≡ on_hand memory p stocked +ℤ at p (place (sale (pos 4)).movement) (neg (pos 4)))
    × Outgoing (sale (pos 4)) sold_movements
    × (sum_ℤ (λ (m : StockMovement). m.quantity) sold_movements ≡ neg (pos 4))
    × ((k : Key)
        → held memory k sold ≡ held memory k stocked +ℤ movements_at (key_eq k) sold_movements)
    × ((k : Key) → OtherStock (sale (pos 4)) k → held memory k sold ≡ held memory k stocked)
    × Reconciles memory sold
record_outbound-Reconciles_example =
    record_outbound-Reconciles memory memory-IsDatabase owner (sale (pos 4)) stocked sale-runs
      stocked-Reconciles

in_hand : pos 0 ≤ℤ held memory (in_key delivery) stocked
unfolding held_where record_inbound assert_positive require_organization_id apply_to_balance
    assert_variant ◌>>=◌ ◌+ℤ◌
in_hand = omega arith

record_outbound-nonneg_example : pos 0 ≤ℤ held memory (in_key delivery) sold
record_outbound-nonneg_example =
    record_outbound-nonneg memory memory-IsDatabase owner (sale (pos 4)) stocked sale-runs refl
      (in_key delivery) in_hand

option_passes : assert_variant memory owner 10 none false stocked ≡ (ok tt, stocked)
unfolding assert_variant record_inbound assert_positive require_organization_id apply_to_balance
    ◌>>=◌
option_passes = refl

six_available :
    (quantity : ℤ) → available (available_batches memory owner (sale quantity) stocked) ≡ 6
unfolding available_batches record_inbound assert_positive require_organization_id apply_to_balance
    assert_variant ◌>>=◌
six_available quantity = refl

record_outbound-succeeds_example :
    (ms : List StockMovement) × (d' : Memory) × (record_outbound memory owner (sale (pos 4)) stocked
      ≡ (ok ms, d'))
record_outbound-succeeds_example =
    record_outbound-succeeds memory memory-IsDatabase owner refl (sale (pos 4)) stocked refl
      (omega arith) option_passes (omega (arith, six_available (pos 4)))

record_outbound-refused_example :
    record_outbound memory owner (sale (pos 7)) stocked ≡ (err Error.conflict, stocked)
record_outbound-refused_example =
    record_outbound-refused memory owner (sale (pos 7)) stocked (omega arith) option_passes
      (omega (arith, six_available (pos 7))) (Refusal.not_forced refl)

abbrev new_lot : ℕ → ℤ → NewLotLine
new_lot location_id quantity = record {
  product_id = 10;
  variant_id = none;
  location_id = location_id;
  quantity = quantity;
  type = StockMovementType.receipt;
  reason = none;
  note = none;
  occurred_at = 2_000;
  lot_code = none;
  expiry_date = none;
  total_cost = pos 50_000;
  quantity_paid_for = quantity;
}

abbrev truck : List NewLotLine
truck = new_lot 20 (pos 12) ∷ new_lot 21 (pos 3) ∷ []

abbrev received : Memory
received = (record_new_lots memory owner truck stocked).1

truck-runs : record_new_lots memory owner truck stocked ≡ (ok tt, received)
unfolding record_new_lots assert_all_positive assert_variants record_inbound assert_positive
    require_organization_id apply_to_balance assert_variant ◌>>=◌
truck-runs = refl

record_new_lots-Reconciles_example :
    Reconciles memory received
    × ((k : Key)
        → held memory k received
          ≡ held memory k stocked +ℤ brought (with_ids owner.random_uuid 0 truck) (key_eq k))
record_new_lots-Reconciles_example =
    record_new_lots-Reconciles memory memory-IsDatabase owner truck stocked truck-runs
      stocked-Reconciles

abbrev moved_in : Memory
moved_in = (move_into_variant memory owner 10 40 (codes "Red") stocked).1

abbrev move_movements : List StockMovement
move_movements = movements_of (move_into_variant memory owner 10 40 (codes "Red") stocked).0

move-runs :
    move_into_variant memory owner 10 40 (codes "Red") stocked ≡ (ok move_movements, moved_in)
unfolding move_into_variant move_balances move_half record_inbound assert_positive
    require_organization_id apply_to_balance assert_variant ◌>>=◌
move-runs = refl

move_into_variant-moves_example :
    Reconciles memory moved_in
    × (held memory (stock_key 10 none 20 30) moved_in ≡ pos 0)
    × (held memory (stock_key 10 (some 40) 20 30) moved_in
        ≡ held memory (stock_key 10 (some 40) 20 30) stocked
          +ℤ held memory (stock_key 10 none 20 30) stocked)
move_into_variant-moves_example =
    move_into_variant-moves memory memory-IsDatabase owner 10 40 (codes "Red") stocked move-runs
      stocked-Reconciles 20 30
