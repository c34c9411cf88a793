-- ===== src/Reports/StockSummary.antt =====
-- src/modules/reports/stock-summary.ts: what an item started a period with, what came and went, and
-- what it closed with. A value is an exact fraction, held as a whole number of `d`-ths of a kobo for
-- one common denominator `d`. Items are numbers; a `Map` is the list of its entries in their order.
pub mod Columns
pub mod Kept
pub mod Closing
use stock_mgt.Prelude.{
  ℕ, Bool, true, false, ◌&&◌, not, Option, none, some, List, [], ◌∷◌, ◌++◌, map, ◌==◌,
  if◌then◌else◌, is_some, or_else,
}
use stock_mgt.Prelude.Int.{ℤ, pos, ◌+ℤ◌, ◌-ℤ◌, eqb_ℤ}
use stock_mgt.Prelude.Lists.{find}
use stock_mgt.Prelude.Round.{round_div_ℤ}
use stock_mgt.Inventory.Stock.Tables.{StockMovementType, StockAdjustmentReason}

pub data SummaryColumn : Type 0 where
  opening delivered sold adjusted : SummaryColumn

abbrev by_type : StockMovementType → SummaryColumn
by_type StockMovementType.receipt = SummaryColumn.delivered
by_type StockMovementType.sale = SummaryColumn.sold
by_type StockMovementType.return_in = SummaryColumn.sold
by_type _ = SummaryColumn.adjusted

abbrev pub column_for : StockMovementType → Option StockAdjustmentReason → SummaryColumn
column_for type (some StockAdjustmentReason.opening_balance) = SummaryColumn.opening
column_for type (some StockAdjustmentReason.receipt_correction) = SummaryColumn.delivered
column_for type _ = by_type type

pub record Amount : Type 0 where
  pub quantity : ℤ
  pub value : Option ℤ

pub record MovementTotal : Type 0 where
  pub amount : Amount
  pub key : ℕ
  pub type : StockMovementType
  pub reason : Option StockAdjustmentReason

pub record SummaryFigures : Type 0 where
  pub opening : ℤ
  pub delivered : ℤ
  pub sold : ℤ
  pub adjusted : ℤ
  pub closing : ℤ

pub record SummaryLine : Type 0 where
  pub key : ℕ
  pub quantity : SummaryFigures
  pub value : Option SummaryFigures

pub record StockSummary : Type 0 where
  pub lines : List SummaryLine
  pub total_value : Option SummaryFigures
  pub available_value : Option ℤ

-- `zero()`
abbrev pub no_figures : SummaryFigures
no_figures = record {
  opening = pos 0;
  delivered = pos 0;
  sold = pos 0;
  adjusted = pos 0;
  closing = pos 0;
}

-- `add`
abbrev pub add_to : SummaryFigures → SummaryColumn → ℤ → SummaryFigures
add_to into SummaryColumn.opening amount = record into {
  opening = into.opening +ℤ amount;
  closing = into.closing +ℤ amount;
}
add_to into SummaryColumn.delivered amount = record into {
  delivered = into.delivered +ℤ amount;
  closing = into.closing +ℤ amount;
}
add_to into SummaryColumn.sold amount = record into {
  sold = into.sold -ℤ amount;
  closing = into.closing +ℤ amount;
}
add_to into SummaryColumn.adjusted amount = record into {
  adjusted = into.adjusted +ℤ amount;
  closing = into.closing +ℤ amount;
}

abbrev pub rounded : ℕ → SummaryFigures → SummaryFigures
rounded d figures = record {
  opening = round_div_ℤ figures.opening d;
  delivered = round_div_ℤ figures.delivered d;
  sold = round_div_ℤ figures.sold d;
  adjusted = round_div_ℤ figures.adjusted d;
  closing = round_div_ℤ figures.closing d;
}

-- An entry of `lines`.
pub record Tally : Type 0 where
  pub key : ℕ
  pub quantity : SummaryFigures
  pub value : SummaryFigures

pub record Tallies : Type 0 where
  pub lines : List Tally
  pub total : SummaryFigures

abbrev pub is_line : ℕ → Tally → Bool
is_line key line = line.key == key

-- `before.get(key)`
abbrev pub start_of : ℕ → List (ℕ × Amount) → Option Amount
start_of key [] = none
start_of key ((k, amount) ∷ before) = if k == key then some amount else start_of key before

abbrev pub value_of : Amount → ℤ
value_of amount = or_else amount.value (pos 0)

-- The line that `lineFor` makes.
abbrev pub start_line : ℕ → Option Amount → Tally
start_line key none = record { key = key; quantity = no_figures; value = no_figures }
start_line key (some start) = record {
  key = key;
  quantity = add_to no_figures SummaryColumn.opening start.quantity;
  value = add_to no_figures SummaryColumn.opening (value_of start);
}

abbrev pub start_total : SummaryFigures → Option Amount → SummaryFigures
start_total total none = total
start_total total (some start) = add_to total SummaryColumn.opening (value_of start)

-- `lineFor`: afterwards `lines` has a line for the item.
unfoldable pub line_for : List (ℕ × Amount) → ℕ → Tallies → Tallies
line_for before key tallies =
    if is_some (find (is_line key) tallies.lines) then tallies else record {
      lines = tallies.lines ++ start_line key (start_of key before) ∷ [];
      total = start_total tallies.total (start_of key before);
    }

-- One round of the loop over `before`.
abbrev pub open_line : List (ℕ × Amount) → ℕ → Amount → Tallies → Tallies
open_line before key start tallies =
    if not (eqb_ℤ start.quantity (pos 0)) then line_for before key tallies else tallies

unfoldable pub open_lines : (before rest : List (ℕ × Amount)) → Tallies → Tallies
open_lines before [] tallies = tallies
open_lines before ((key, start) ∷ rest) tallies =
    open_lines before rest (open_line before key start tallies)

-- A change of the line for the item, in place.
abbrev pub update_line : ℕ → (Tally → Tally) → List Tally → List Tally
update_line key f [] = []
update_line key f (line ∷ lines) =
    if is_line key line then f line ∷ lines else line ∷ update_line key f lines

abbrev pub count_in : SummaryColumn → Amount → Tally → Tally
count_in column amount line = record line {
  quantity = add_to line.quantity column amount.quantity;
  value = add_to line.value column (value_of amount);
}

-- One round of the loop over `during`.
abbrev pub count_row : List (ℕ × Amount) → MovementTotal → Tallies → Tallies
count_row before row tallies =
    let found = line_for before row.key tallies in
    let column = column_for row.type row.reason in
    record {
      lines = update_line row.key (count_in column row.amount) found.lines;
      total = add_to found.total column (value_of row.amount);
    }

unfoldable pub count_rows : List (ℕ × Amount) → List MovementTotal → Tallies → Tallies
count_rows before [] tallies = tallies
count_rows before (row ∷ during) tallies = count_rows before during (count_row before row tallies)

abbrev pub all_valued : List Amount → Bool
all_valued [] = true
all_valued (amount ∷ amounts) = is_some amount.value && all_valued amounts

abbrev pub when {ℓ} : {A : Type ℓ} → Bool → A → Option A
when true a = some a
when false a = none

abbrev pub tallies_of : List (ℕ × Amount) → List MovementTotal → Tallies
tallies_of before during =
    count_rows before during (open_lines before before (record { lines = []; total = no_figures }))

unfoldable pub summarise_stock : (d : ℕ) → List (ℕ × Amount) → List MovementTotal → StockSummary
unfolding open_lines count_rows
summarise_stock d before during =
    let valued =
      all_valued (map (λ (entry : ℕ × Amount). entry.1) before)
      && all_valued (map (λ (row : MovementTotal). row.amount) during) in
    let tallies = tallies_of before during in
    record {
      lines =
          map
            (λ (line : Tally). (record {
              key = line.key;
              quantity = line.quantity;
              value = when valued (rounded d line.value);
            }))
            tallies.lines;
      total_value = when valued (rounded d tallies.total);
      available_value =
          when valued (round_div_ℤ (tallies.total.opening +ℤ tallies.total.delivered) d);
    }
