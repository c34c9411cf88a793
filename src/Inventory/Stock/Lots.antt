-- ===== src/Inventory/Stock/Lots.antt =====
-- `recordNewLots` of src/modules/inventory/stock.service.ts: many lines at once, each into a lot of
-- its own, and what that does to the ledger.
pub mod Effect
use stock_mgt.Prelude.{
  ℕ, suc, ◌+◌, ◌≡◌, refl, ◌∙◌, ap, Bool, true, false, ◌||◌, not, List, [], ◌∷◌, ◌++◌, map, Option,
  some, none, arith, ◌==◌, if◌then◌else◌, is_some, inl, inr, Option-cases,
}
use stock_mgt.Prelude.Int.{ℤ, pos, ◌+ℤ◌, +ℤ_comm, ◌≤ℤ◌, int_laws}
use stock_mgt.Prelude.Lists.{select, length, sum_ℤ, sum_ℤ-append}
use stock_mgt.Prelude.Result.{Result, ok, err, Error}
use stock_mgt.Catalog.Variants.{KnownVariant, check_variant}
use stock_mgt.Inventory.Stock.Tables.{
  Key, StockMovement, StockBalance, StockBatch, ProductVariant, NewLotLine, Context,
}
use stock_mgt.Inventory.Stock.Writer.{StockWriter, IsDatabase}
use stock_mgt.Inventory.Stock.Calls.{
  Action, pure, lift, insert_or_throw, ◌>>=◌, ◌>>◌, Done, Done-eq, Done->>=, Checked, lift-Checked,
}
use stock_mgt.Inventory.Stock.Service.{assert_positive, require_organization_id}
use stock_mgt.Inventory.Stock.Ledger.{
  Test, on_key, movements_at, balances_at, moved, held, Posted, Posted-same, Posted-Reconciles,
  Reconciles,
}

abbrev pub lot_key : NewLotLine → ℕ → Key
lot_key line batch_id = record {
  product_id = line.product_id;
  variant_id = line.variant_id;
  location_id = line.location_id;
  batch_id = batch_id;
}

-- `for (const line of lines) assertPositive(line.quantity)`
unfoldable pub assert_all_positive : List NewLotLine → Result (Unit {0})
unfolding assert_positive
assert_all_positive [] = ok tt
assert_all_positive (line ∷ lines) =
    let rest = assert_all_positive lines in
    elim (assert_positive line.quantity) [ ok _ ↦ rest | err e ↦ err e ]

abbrev pub variants_of : List ProductVariant → ℕ → List KnownVariant
variants_of rows product_id =
    map (λ (v : ProductVariant). v.known)
      (select (λ (v : ProductVariant). v.product_id == product_id) rows)

-- `assertVariants`: the lines that name an option, or whose product has options, are checked.
unfoldable pub assert_variants : List ProductVariant → List NewLotLine → Result (Unit {0})
assert_variants rows [] = ok tt
assert_variants rows (line ∷ lines) =
    let rest = assert_variants rows lines in
    let known = variants_of rows line.product_id in
    if is_some line.variant_id || not (length known == 0)
    then elim (check_variant known line.variant_id false) [ ok _ ↦ rest | err e ↦ err e ]
    else rest

-- Each line with the id of its lot, the `i`-th random id from `i` on.
abbrev pub with_ids : (ℕ → ℕ) → ℕ → List NewLotLine → List (NewLotLine × ℕ)
with_ids random_uuid i [] = []
with_ids random_uuid i (line ∷ lines) = (line, random_uuid i) ∷ with_ids random_uuid (suc i) lines

module _ {Db : Type 0} (w : StockWriter Db) (ctx : Context) where
  abbrev pub lot_batch : ℕ → NewLotLine × ℕ → StockBatch
  lot_batch organization_id (line, batch_id) = record {
    id = batch_id;
    organization_id = organization_id;
    product_id = line.product_id;
    lot_code = line.lot_code;
    expiry_date = line.expiry_date;
    received_at = line.occurred_at;
    quantity_received = line.quantity;
    quantity_paid_for = line.quantity_paid_for;
    total_cost = line.total_cost;
  }

  abbrev pub lot_movement : ℕ → NewLotLine × ℕ → StockMovement
  lot_movement organization_id (line, batch_id) = record {
    id = none;
    organization_id = organization_id;
    key = lot_key line batch_id;
    type = line.type;
    quantity = line.quantity;
    reason = line.reason;
    note = line.note;
    occurred_at = line.occurred_at;
    recorded_by_user_id = ctx.user_id;
    reference_type = none;
    reference_id = none;
    transfer_group_id = none;
    is_forced = false;
    forced_reason = none;
  }

  abbrev pub lot_balance : ℕ → NewLotLine × ℕ → StockBalance
  lot_balance organization_id (line, batch_id) = record {
    organization_id = organization_id;
    key = lot_key line batch_id;
    quantity = line.quantity;
  }

  unfoldable pub record_new_lots : List NewLotLine → Action Db (Unit {0})
  unfolding assert_all_positive assert_variants require_organization_id
  record_new_lots [] = pure tt
  record_new_lots (line ∷ lines) = do
    lift (assert_all_positive (line ∷ lines))
    (λ d. lift (assert_variants (w.variants d) (line ∷ lines)) d)
    organization_id ← lift (require_organization_id ctx)
    let rows = with_ids ctx.random_uuid 0 (line ∷ lines)
    insert_or_throw (w.create_batches (map (lot_batch organization_id) rows))
    insert_or_throw (w.create_movements (map (lot_movement organization_id) rows))
    insert_or_throw (w.create_balances (map (lot_balance organization_id) rows))

-- What the lots bring in on the keys of a test.
unfoldable pub brought : List (NewLotLine × ℕ) → Test → ℤ
brought rows t = sum_ℤ (λ (r : NewLotLine × ℕ). on_key t (lot_key r.0 r.1) r.0.quantity) rows
