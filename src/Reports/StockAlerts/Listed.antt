-- ===== src/Reports/StockAlerts/Listed.antt =====
-- Where a row of src/modules/reports/stock-alerts.ts is listed.
use stock_mgt.Prelude.{
  ℕ, ◌+◌, ◌≡◌, refl, sym, ◌∙◌, Bool, true, not, ◌&&◌, Option, none, some, List, [], ◌∷◌, map, arith,
  inl, inr, Bool-cases, if◌then◌else◌, is_some,
}
use stock_mgt.Prelude.Int.{ℤ, pos, ltb_ℤ, leb_ℤ, eqb_ℤ}
use stock_mgt.Prelude.Lists.{length, select, length-append, length-sum_by, All, All-append}
use stock_mgt.Prelude.Sort.{sort, sum_by-sort}
use stock_mgt.Reports.StockAlerts.{
  AlertRow, AlertProduct, AlertVariant, HeldStock, SalesSpeed, LowReason, low_reason, rows_of,
  live_rows, low_list, sooner, is_running_out, is_below_level, stock_alerts, alert_row, items_of,
}

-- A row that is on no list: there is some, and enough.
abbrev pub is_well : AlertRow → Bool
is_well r = ltb_ℤ (pos 0) r.quantity && not (is_some r.reason)

abbrev pub is_negative : AlertRow → Bool
is_negative r = ltb_ℤ r.quantity (pos 0)

abbrev Judged : ℕ → AlertRow → Type 0
Judged low_stock_days r =
    r.reason ≡ low_reason r.quantity r.sold_in_window r.window_days r.reorder_point low_stock_days

items-Judged :
    (held : List HeldStock) (speeds : List SalesSpeed) (low_stock_days : ℕ) (product : AlertProduct)
    (items : List (Option AlertVariant × Bool))
    → All
        (λ (r : AlertRow × Bool). Judged low_stock_days r.0)
        (map (λ item. (alert_row held speeds low_stock_days product item.0, item.1)) items)
items-Judged held speeds low_stock_days product [] = tt
items-Judged held speeds low_stock_days product (item ∷ items) =
    (refl, items-Judged held speeds low_stock_days product items)

rows_of-Judged :
    (held : List HeldStock) (speeds : List SalesSpeed) (low_stock_days : ℕ)
    (products : List AlertProduct)
    → All
        (λ (r : AlertRow × Bool). Judged low_stock_days r.0)
        (rows_of held speeds low_stock_days products)
unfolding rows_of
rows_of-Judged held speeds low_stock_days [] = tt
rows_of-Judged held speeds low_stock_days (product ∷ products) =
    All-append _ (map _ (items_of product)) (rows_of held speeds low_stock_days products)
      (items-Judged held speeds low_stock_days product (items_of product))
      (rows_of-Judged held speeds low_stock_days products)

live_rows-All :
    (P : AlertRow → Type 0) (rows : List (AlertRow × Bool))
    → All (λ (r : AlertRow × Bool). P r.0) rows
    → All P (live_rows rows)
live_rows-All P [] h = tt
live_rows-All P (r ∷ rows) (this, h) = elim (Bool-cases r.1) [
  | inl live ↦ rw live (this, live_rows-All P rows h)
  | inr retired ↦ rw retired (live_rows-All P rows h)
]

length-sort : (xs : List AlertRow) → length (sort sooner xs) ≡ length xs
length-sort xs =
    length-sum_by (sort sooner xs) ∙ sum_by-sort sooner (λ x. 1) xs ∙ sym (length-sum_by xs)

abbrev count_of : Bool → ℕ
count_of b = if b then 1 else 0

-- Low is strictly above empty.
low_reason-empty :
    (quantity : ℤ) (sold days : ℕ) (level : Option ℤ) (low_stock_days : ℕ)
    → leb_ℤ quantity (pos 0) ≡ true
    → low_reason quantity sold days level low_stock_days ≡ none
unfolding low_reason
low_reason-empty quantity sold days level low_stock_days h = rw h refl

one_list :
    (quantity : ℤ) (reason : Option LowReason)
    → (leb_ℤ quantity (pos 0) ≡ true → reason ≡ none)
    → count_of (eqb_ℤ quantity (pos 0))
        + count_of (is_running_out reason)
        + count_of (is_below_level reason)
        + count_of (ltb_ℤ quantity (pos 0))
        + count_of (ltb_ℤ (pos 0) quantity && not (is_some reason))
      ≡ 1
one_list quantity none h = ground arith
one_list quantity (some LowReason.running_out) h = elim (Bool-cases (leb_ℤ quantity (pos 0))) [
  | inl e ↦ cc (h e)
  | inr e ↦ ground arith
]
one_list quantity (some LowReason.below_level) h = elim (Bool-cases (leb_ℤ quantity (pos 0))) [
  | inl e ↦ cc (h e)
  | inr e ↦ ground arith
]

length-select :
    (p : AlertRow → Bool) (x : AlertRow) (xs : List AlertRow)
    → length (select p (x ∷ xs)) ≡ count_of (p x) + length (select p xs)
length-select p x xs = elim (Bool-cases (p x)) [
  | inl e ↦ rw e (omega arith)
  | inr e ↦ rw e (omega arith)
]

length-low_list :
    (live : List AlertRow)
    → length (low_list live)
      ≡ length (select (λ r. is_running_out r.reason) live)
        + length (select (λ r. is_below_level r.reason) live)
length-low_list live =
    rw
      (
        length-append (sort sooner (select (λ r. is_running_out r.reason) live))
            (select (λ r. is_below_level r.reason) live),
        length-sort (select (λ r. is_running_out r.reason) live),
      )
      refl

each_listed :
    (low_stock_days : ℕ) (live : List AlertRow)
    → All (Judged low_stock_days) live
    → length (select (λ r. eqb_ℤ r.quantity (pos 0)) live)
        + (length (select (λ r. is_running_out r.reason) live)
            + length (select (λ r. is_below_level r.reason) live))
        + length (select is_negative live)
        + length (select is_well live)
      ≡ length live
each_listed low_stock_days [] h = refl
each_listed low_stock_days (r ∷ live) (this, h) = omega (
  arith,
  each_listed low_stock_days live h,
  one_list r.quantity r.reason (λ e.
      this
      ∙ low_reason-empty r.quantity r.sold_in_window r.window_days r.reorder_point low_stock_days
          e),
  length-select (λ r. eqb_ℤ r.quantity (pos 0)) r live,
  length-select (λ r. is_running_out r.reason) r live,
  length-select (λ r. is_below_level r.reason) r live,
  length-select is_negative r live,
  length-select is_well r live,
)

-- Of the products and options that can be restocked, those listed as out, those listed as low, those
-- below zero, and those that have stock and no reason to warn, add up to all.
pub stock_alerts-listed :
    (products : List AlertProduct) (held : List HeldStock) (speeds : List SalesSpeed)
    (low_stock_days : ℕ)
    → let live = live_rows (rows_of held speeds low_stock_days products) in
      let alerts = stock_alerts products held speeds low_stock_days in
      length alerts.out_of_stock
        + length alerts.low_stock
        + length (select is_negative live)
        + length (select is_well live)
      ≡ length live
unfolding stock_alerts
stock_alerts-listed products held speeds low_stock_days =
    let rows = rows_of held speeds low_stock_days products in
    let live = live_rows rows in
    let judged =
      live_rows-All (Judged low_stock_days) rows
        (rows_of-Judged held speeds low_stock_days products) in
    omega (arith, each_listed low_stock_days live judged, length-low_list live)
