-- ===== src/Inventory/Stocktake/Post.antt =====
-- `post` of src/modules/inventory/stocktake.service.ts: a count becomes movements.
pub mod Short
pub mod Over
pub mod Effect
use stock_mgt.Prelude.{
  ℕ, suc, ◌+◌, ◌-◌, min, Bool, true, false, not, ◌&&◌, Option, none, some, List, [], ◌∷◌, ◌++◌, map,
  ltb, ◌==◌, if◌then◌else◌,
}
use stock_mgt.Prelude.Int.{ℤ, pos, neg, abs, ◌-ℤ◌, ltb_ℤ, eqb_ℤ, pos_part}
use stock_mgt.Prelude.Lists.{select, sum_by, length}
use stock_mgt.Prelude.Sort.{sort}
use stock_mgt.Prelude.Result.{Result, ok, err, Error, throw_if}
use stock_mgt.Inventory.Stock.Tables.{
  Text, StockMovementType, StockAdjustmentReason, StockMovement, StockBalance, StockBatch,
  MovementInput, InboundInput, OutboundInput, Context,
}
use stock_mgt.Inventory.Stock.Writer.{StockWriter}
use stock_mgt.Inventory.Stock.Calls.{
  Action, pure, lift, gets, insert_or_throw, transaction, ◌>>=◌, ◌>>◌,
}
use stock_mgt.Inventory.Stock.Service.{record_inbound, require_organization_id}
use stock_mgt.Inventory.Stock.Outbound.{record_outbound, with_batch}
use stock_mgt.Inventory.Stock.Operations.{Directory}
use stock_mgt.Inventory.Stocktake.Rows.{
  StocktakeStatus, StocktakeLine, Stocktake, Counting, on_hand_by_line, assert_countable,
  StocktakeView, find_one,
}
use stock_mgt.Inventory.Stocktake.Count.{on_stock, opened, update}

-- A line that disagrees with the ledger, and by how much.
pub record Variance : Type 0 where
  pub line : StocktakeLine
  pub variance : ℤ

-- A lot that a moving part has left, and how much of it.
pub record Freed : Type 0 where
  pub batch_id : ℕ
  pub quantity : ℕ

-- A product and its variances: an entry of `byProduct`.
abbrev pub Group : Type 0
Group = ℕ × List Variance

abbrev pub variances_of : (expected : ℕ → Option ℕ → ℤ) → List StocktakeLine → List Variance
variances_of expected [] = []
variances_of expected (line ∷ lines) =
    let variance = line.counted_quantity -ℤ expected line.product_id line.variant_id in
    let rest = variances_of expected lines in
    if eqb_ℤ variance (pos 0) then rest else record { line = line; variance = variance } ∷ rest

-- `byProduct.set(…)`: a product that is not there yet comes last.
abbrev pub add_to_product : Variance → List Group → List Group
add_to_product v [] = (v.line.product_id, v ∷ []) ∷ []
add_to_product v ((product_id, vs) ∷ groups) =
    let later = add_to_product v groups in
    if product_id == v.line.product_id
    then (product_id, vs ++ v ∷ []) ∷ groups
    else (product_id, vs) ∷ later

abbrev pub by_product : List Group → List Variance → List Group
by_product groups [] = groups
by_product groups (v ∷ vs) = by_product (add_to_product v groups) vs

abbrev pub is_short : Variance → Bool
is_short v = ltb_ℤ v.variance (pos 0)

abbrev pub is_over : Variance → Bool
is_over v = ltb_ℤ (pos 0) v.variance

abbrev pub amount : Variance → ℕ
amount v = abs v.variance

abbrev pub to_move : List Variance → ℕ
to_move variances =
    min (sum_by amount (select is_short variances)) (sum_by amount (select is_over variances))

abbrev pub freed_by : StockMovement → Freed
freed_by m = record { batch_id = m.key.batch_id; quantity = pos_part (neg m.quantity) }

-- What the correction of one line of a product writes.
module _ (s : Stocktake) (product_id : ℕ) (line : StocktakeLine) where
  abbrev pub correction :
      StockMovementType → (transfer_group_id : Option ℕ) → (quantity : ℕ) → MovementInput
  correction type transfer_group_id quantity = record {
    id = none;
    product_id = product_id;
    variant_id = line.variant_id;
    location_id = s.location_id;
    quantity = pos quantity;
    type = type;
    reason = some StockAdjustmentReason.count_correction;
    note = line.note;
    occurred_at = none;
    -- "stocktake"
    reference_type = some (115 ∷ 116 ∷ 111 ∷ 99 ∷ 107 ∷ 116 ∷ 97 ∷ 107 ∷ 101 ∷ []);
    reference_id = some s.id;
    transfer_group_id = transfer_group_id;
  }

  abbrev pub out_of : StockMovementType → Option ℕ → ℕ → OutboundInput
  out_of type transfer_group_id quantity = record {
    movement = correction type transfer_group_id quantity;
    batch_id = none;
    force = false;
    forced_reason = none;
  }

  abbrev pub in_to : StockMovementType → Option ℕ → ℕ → ℕ → InboundInput
  in_to type transfer_group_id quantity batch_id = record {
    movement = correction type transfer_group_id quantity;
    batch_id = batch_id;
  }

-- `orderBy: { …: 'desc' }`, and the first.
abbrev pub newest : {A : Type 0} → (A → ℕ) → List A → Option A
newest at xs = elim (sort (λ a b. ltb (at b) (at a)) xs) [ [] ↦ none | x ∷ others ↦ some x ]

module _ {Db : Type 0} (w : StockWriter Db) (ctx : Context) where
  abbrev pub found_lot : ℕ → (product_id organization_id : ℕ) → StockBatch
  found_lot n product_id organization_id = record {
    id = ctx.random_uuid n;
    organization_id = organization_id;
    product_id = product_id;
    -- "FOUND"
    lot_code = some (70 ∷ 79 ∷ 85 ∷ 78 ∷ 68 ∷ []);
    expiry_date = none;
    received_at = ctx.now;
    quantity_received = pos 0;
    quantity_paid_for = pos 0;
    total_cost = pos 0;
  }

  unfoldable pub invent_lot : ℕ → (product_id : ℕ) → Action Db ℕ
  unfolding require_organization_id
  invent_lot n product_id = do
    organization_id ← lift (require_organization_id ctx)
    insert_or_throw (w.create_batches (found_lot n product_id organization_id ∷ []))
    pure (ctx.random_uuid n)

  unfoldable pub newest_here : (product_id location_id : ℕ) → Db → Option StockBalance
  newest_here product_id location_id d =
      newest (λ a. (with_batch (w.batches d) a).received_at)
        (select
          (λ (b : StockBalance).
            (b.key.product_id == product_id)
            && (b.key.location_id == location_id)
            && ltb_ℤ (pos 0) b.quantity)
          (w.balances d))

  unfoldable pub newest_anywhere : (product_id : ℕ) → Db → Option StockBatch
  newest_anywhere product_id d =
      newest (λ (l : StockBatch). l.received_at)
        (select
          (λ (l : StockBatch). (l.product_id == product_id) && ltb_ℤ (pos 0) l.quantity_received)
          (w.batches d))

  -- The batch here that was received last, or else anywhere, or else a new one.
  unfoldable pub batch_for_surplus : ℕ → (product_id location_id : ℕ) → Action Db ℕ
  unfolding invent_lot
  batch_for_surplus n product_id location_id d = elim (newest_here product_id location_id d) [
    | some here ↦ (ok here.key.batch_id, d)
    | none ↦ elim (newest_anywhere product_id d) [
      | some anywhere ↦ (ok anywhere.id, d)
      | none ↦ invent_lot n product_id d
    ]
  ]

  module _ (s : Stocktake) (product_id : ℕ) (transfer_group_id : Option ℕ) where
    -- The part of a shortfall that moves to other options, and the lots that it has left.
    unfoldable pub move_out : StocktakeLine → (moving : ℕ) → Action Db (List Freed)
    unfolding record_outbound
    move_out line moving =
        if ltb 0 moving
        then (do
          out ←
              record_outbound w ctx
                (out_of s product_id line StockMovementType.transfer_out transfer_group_id moving)
          pure (map freed_by out))
        else pure []

    unfoldable pub write_off_rest : StocktakeLine → (rest : ℕ) → Action Db (List StockMovement)
    unfolding record_outbound
    write_off_rest line rest =
        if ltb 0 rest
        then record_outbound w ctx (out_of s product_id line StockMovementType.adjustment none rest)
        else pure []

    -- The loop over the lines that are short.
    unfoldable pub post_short : (to_move : ℕ) → List Variance → Action Db (List Freed)
    unfolding move_out write_off_rest
    post_short to_move [] = pure []
    post_short to_move (v ∷ short) = do
      let moving = min to_move (amount v)
      freed ← move_out v.line moving
      written ← write_off_rest v.line (amount v - moving)
      later ← post_short (to_move - moving) short
      pure (freed ++ later)

    -- The `while` of one line that is over: what arrives on the lots that were freed. It returns the
    -- lots that are left and what the line still wants.
    unfoldable pub arrive_on :
        StocktakeLine → (wanted : ℕ) → List Freed → Action Db (List Freed × ℕ)
    unfolding record_inbound
    arrive_on line wanted [] = pure ([], wanted)
    arrive_on line wanted (lot ∷ freed) =
        if ltb 0 wanted
        then (do
          let taking = min wanted lot.quantity
          movement ← record_inbound w ctx (
              in_to s product_id line StockMovementType.transfer_in transfer_group_id taking
                lot.batch_id)
          let left = record lot { quantity = lot.quantity - taking }
          -- with something left of the lot, nothing more is wanted
          (if left.quantity == 0
              then arrive_on line (wanted - taking) freed
              else pure (left ∷ freed, wanted - taking)))
        else pure (lot ∷ freed, wanted)

    unfoldable pub write_on_rest : ℕ → StocktakeLine → (wanted : ℕ) → Action Db (Unit {0})
    unfolding batch_for_surplus record_inbound
    write_on_rest n line wanted =
        if ltb 0 wanted
        then (do
          batch_id ← batch_for_surplus n product_id s.location_id
          movement ←
              record_inbound w ctx
                (in_to s product_id line StockMovementType.adjustment none wanted batch_id)
          pure tt)
        else pure tt

    -- The loop over the lines that are over.
    unfoldable pub post_over : ℕ → List Freed → List Variance → Action Db (Unit {0})
    unfolding arrive_on write_on_rest
    post_over n freed [] = pure tt
    post_over n freed (v ∷ over) = do
      (left, wanted) ← arrive_on v.line (amount v) freed
      write_on_rest n v.line wanted
      post_over n left over

  unfoldable pub post_product : ℕ → Stocktake → Group → Action Db (Unit {0})
  unfolding post_short post_over
  post_product n s (product_id, variances) = do
    let moving = to_move variances
    let transfer_group_id = if ltb 0 moving then some (ctx.random_uuid n) else none
    freed ← post_short s product_id transfer_group_id moving (select is_short variances)
    post_over s product_id transfer_group_id n freed (select is_over variances)

  -- The loop over the products: it returns the number of corrections. Each has its own random id.
  unfoldable pub post_products : ℕ → Stocktake → List Group → Action Db ℕ
  unfolding post_product
  post_products n s [] = pure 0
  post_products n s (group ∷ groups) = do
    post_product n s group
    corrections ← post_products (suc n) s groups
    pure (length group.1 + corrections)

  abbrev pub as_posted : Stocktake → Stocktake
  as_posted s = record s {
    status = StocktakeStatus.posted;
    posted_at = some ctx.now;
    posted_by_user_id = ctx.user_id;
  }

module _ {Db : Type 0} (w : StockWriter Db) (directory : Directory Db) (ctx : Context) where
  abbrev pub groups_of : Stocktake → Db → List Group
  groups_of s d = by_product [] (
      variances_of
        (on_hand_by_line w s.location_id (map (λ (l : StocktakeLine). l.product_id) s.lines) d)
        s.lines)

  -- What the transaction does to the stock.
  unfoldable pub correct_stock : Stocktake → Action Db ℕ
  unfolding assert_countable on_hand_by_line post_products
  correct_stock s = do
    (λ d.
        lift
          (assert_countable true (directory.products d)
            (map (λ (l : StocktakeLine). (l.product_id, l.variant_id)) s.lines))
          d)
    groups ← gets (groups_of s)
    post_products w ctx 1 s groups

  unfoldable pub post_transaction : Stocktake → Action (Counting Db) ℕ
  unfolding correct_stock
  post_transaction s = do
    corrections ← on_stock (correct_stock s)
    update s.id (as_posted w ctx)
    pure corrections

  unfoldable pub post : ℕ → Action (Counting Db) (StocktakeView × ℕ)
  unfolding post_transaction find_one
  post id = do
    s ← opened id
    lift (throw_if (length s.lines == 0) Error.conflict)
    corrections ← transaction (post_transaction s)
    shown ← find_one w id
    pure (shown, corrections)
