-- ===== src/Reports/StockAlerts.antt =====
-- src/modules/reports/stock-alerts.ts: which products and options are out, low or negative. A row that is
-- the retired option's is told apart by a flag beside it, where the source keeps a set of rows.
pub mod Listed
use stock_mgt.Prelude.{
  ℕ, ◌*◌, ◌/◌, Bool, true, false, not, ◌&&◌, Option, none, some, List, [], ◌∷◌, ◌++◌, map, ltb,
  ◌==◌, opt_eq, if◌then◌else◌, is_some, or_else,
}
use stock_mgt.Prelude.Int.{ℤ, pos, pos_part, ◌*ℤ◌, ltb_ℤ, leb_ℤ, eqb_ℤ}
use stock_mgt.Prelude.Lists.{length, select, sum_ℤ}
use stock_mgt.Prelude.Sort.{sort}
use stock_mgt.Inventory.Stock.Tables.{Text}

pub record AlertUnit : Type 0 where
  pub name : Text
  pub factor : ℕ

pub record AlertVariant : Type 0 where
  pub id : ℕ
  pub name : Text

pub record AlertProduct : Type 0 where
  pub id : ℕ
  pub name : Text
  pub sku : Text
  pub reorder_point : Option ℤ
  pub units : List AlertUnit
  pub variants : List (AlertVariant × Bool)

pub record HeldStock : Type 0 where
  pub product_id : ℕ
  pub variant_id : Option ℕ
  pub quantity : ℤ

pub record SalesSpeed : Type 0 where
  pub product_id : ℕ
  pub variant_id : Option ℕ
  pub sold : ℤ
  pub days : ℕ

pub data LowReason : Type 0 where
  running_out below_level : LowReason

pub record AlertRow : Type 0 where
  pub id : ℕ
  pub name : Text
  pub sku : Text
  pub reorder_point : Option ℤ
  pub variant : Option AlertVariant
  pub quantity : ℤ
  pub units : List AlertUnit
  pub sold_in_window : ℕ
  pub window_days : ℕ
  pub days_left : Option ℕ
  pub reason : Option LowReason

pub record StockAlerts : Type 0 where
  pub out_of_stock : List AlertRow
  pub low_stock : List AlertRow
  pub negative : List AlertRow
  pub without_reorder_point : ℕ
  pub low_stock_days : ℕ

abbrev pub at_level : Option ℤ → (quantity : ℤ) → Option LowReason
at_level none quantity = none
at_level (some level) quantity = if leb_ℤ quantity level then some LowReason.below_level else none

unfoldable pub low_reason :
    (quantity : ℤ) (sold days : ℕ) (reorder_point : Option ℤ) (low_stock_days : ℕ)
    → Option LowReason
low_reason quantity sold days reorder_point low_stock_days =
    if leb_ℤ quantity (pos 0)
    then none
    else if ltb 0 sold && ltb 0 days && ltb_ℤ (quantity *ℤ pos days) (pos (sold * low_stock_days))
    then some LowReason.running_out
    else at_level reorder_point quantity

-- The sum of the rows of one key.
abbrev pub on_hand_of : List HeldStock → (product_id : ℕ) → (variant_id : Option ℕ) → ℤ
on_hand_of held product_id variant_id =
    sum_ℤ (λ h. h.quantity)
      (select (λ (h : HeldStock). h.product_id == product_id && opt_eq h.variant_id variant_id)
        held)

-- A later row of the same key replaces an earlier one.
abbrev pub speed_of :
    List SalesSpeed → (product_id : ℕ) → (variant_id : Option ℕ) → Option SalesSpeed
speed_of [] product_id variant_id = none
speed_of (s ∷ speeds) product_id variant_id = elim (speed_of speeds product_id variant_id) [
  | some later ↦ some later
  | none ↦ if s.product_id == product_id && opt_eq s.variant_id variant_id then some s else none
]

abbrev pub sold_at : Option SalesSpeed → ℕ
sold_at none = 0
sold_at (some speed) = pos_part speed.sold

abbrev pub days_at : Option SalesSpeed → ℕ
days_at none = 0
days_at (some speed) = speed.days

abbrev pub days_left_of : (quantity : ℤ) → (sold days : ℕ) → Option ℕ
days_left_of quantity sold days =
    if ltb 0 sold && ltb 0 days && ltb_ℤ (pos 0) quantity
    then some (pos_part quantity * days / sold)
    else none

abbrev pub variant_id_of : Option AlertVariant → Option ℕ
variant_id_of none = none
variant_id_of (some v) = some v.id

abbrev pub items_of : AlertProduct → List (Option AlertVariant × Bool)
items_of product = items product.variants
  where
    items : List (AlertVariant × Bool) → List (Option AlertVariant × Bool)
    items [] = (none, true) ∷ []
    items (v ∷ vs) = map (λ item. (some item.0, item.1)) (v ∷ vs)

abbrev pub alert_row :
    List HeldStock
    → List SalesSpeed
    → (low_stock_days : ℕ) → AlertProduct
    → Option AlertVariant
    → AlertRow
alert_row held speeds low_stock_days product variant =
    let quantity = on_hand_of held product.id (variant_id_of variant) in
    let speed = speed_of speeds product.id (variant_id_of variant) in
    record {
      id = product.id;
      name = product.name;
      sku = product.sku;
      reorder_point = product.reorder_point;
      variant = variant;
      quantity = quantity;
      units = product.units;
      sold_in_window = sold_at speed;
      window_days = days_at speed;
      days_left = days_left_of quantity (sold_at speed) (days_at speed);
      reason =
          low_reason quantity (sold_at speed) (days_at speed) product.reorder_point low_stock_days;
    }

-- The rows, each with whether it may be restocked.
unfoldable pub rows_of :
    List HeldStock
    → List SalesSpeed
    → (low_stock_days : ℕ) → List AlertProduct
    → List (AlertRow × Bool)
rows_of held speeds low_stock_days [] = []
rows_of held speeds low_stock_days (product ∷ products) =
    map (λ item. (alert_row held speeds low_stock_days product item.0, item.1)) (items_of product)
    ++ rows_of held speeds low_stock_days products

abbrev pub live_rows : List (AlertRow × Bool) → List AlertRow
live_rows rows = map (λ r. r.0) (select (λ (r : AlertRow × Bool). r.1) rows)

abbrev pub is_running_out : Option LowReason → Bool
is_running_out (some LowReason.running_out) = true
is_running_out _ = false

abbrev pub is_below_level : Option LowReason → Bool
is_below_level (some LowReason.below_level) = true
is_below_level _ = false

abbrev pub sooner : AlertRow → AlertRow → Bool
sooner a b = ltb (or_else a.days_left 0) (or_else b.days_left 0)

abbrev pub low_list : List AlertRow → List AlertRow
low_list live =
    sort sooner (select (λ r. is_running_out r.reason) live)
    ++ select (λ r. is_below_level r.reason) live

unfoldable pub stock_alerts :
    List AlertProduct → List HeldStock → List SalesSpeed → (low_stock_days : ℕ) → StockAlerts
stock_alerts products held speeds low_stock_days =
    let rows = rows_of held speeds low_stock_days products in
    record {
      out_of_stock = select (λ r. eqb_ℤ r.quantity (pos 0)) (live_rows rows);
      low_stock = low_list (live_rows rows);
      negative = select (λ r. ltb_ℤ r.quantity (pos 0)) (map (λ r. r.0) rows);
      without_reorder_point = length (select (λ p. not (is_some p.reorder_point)) products);
      low_stock_days = low_stock_days;
    }
