-- ===== src/Reports/StockSummary/Columns.antt =====
-- The columns and the lines of src/modules/reports/stock-summary.ts, one step at a time.
use stock_mgt.Prelude.{
  ℕ, ◌≡◌, refl, sym, ap, Bool, true, false, Option, none, some, List, [], ◌∷◌, ◌++◌, ◌==◌,
  if◌then◌else◌, is_some,
}
use stock_mgt.Prelude.Int.{ℤ, pos, ◌+ℤ◌, ◌-ℤ◌, int_laws, +ℤ-zero}
use stock_mgt.Prelude.Lists.{find, sum_ℤ}
use stock_mgt.Reports.StockSummary.{
  SummaryColumn, Amount, MovementTotal, SummaryFigures, add_to, Tallies, is_line, start_of,
  start_line, start_total, line_for,
}

-- The four columns make up what an item closed with; `sold` counts what went as positive.
abbrev pub Balanced : SummaryFigures → Type 0
Balanced f = f.opening +ℤ f.delivered -ℤ f.sold +ℤ f.adjusted ≡ f.closing

abbrev pub start_quantity : Option Amount → ℤ
start_quantity none = pos 0
start_quantity (some start) = start.quantity

-- What the movements of a period add up to for one item.
abbrev pub moved_in : ℕ → List MovementTotal → ℤ
moved_in key =
    sum_ℤ (λ (row : MovementTotal). if row.key == key then row.amount.quantity else pos 0)

pub add_to-Balanced :
    (f : SummaryFigures) (column : SummaryColumn) (a : ℤ)
    → Balanced f
    → Balanced (add_to f column a)
add_to-Balanced f SummaryColumn.opening a h = rw (← h) (omega int_laws)
add_to-Balanced f SummaryColumn.delivered a h = rw (← h) (omega int_laws)
add_to-Balanced f SummaryColumn.sold a h = rw (← h) (omega int_laws)
add_to-Balanced f SummaryColumn.adjusted a h = rw (← h) (omega int_laws)

pub closing-add_to :
    (f : SummaryFigures) (column : SummaryColumn) (a : ℤ)
    → (add_to f column a).closing ≡ f.closing +ℤ a
closing-add_to f SummaryColumn.opening a = refl
closing-add_to f SummaryColumn.delivered a = refl
closing-add_to f SummaryColumn.sold a = refl
closing-add_to f SummaryColumn.adjusted a = refl

pub miss : (m q : ℤ) (b : Bool) → b ≡ false → m ≡ m +ℤ (if b then q else pos 0)
miss m q true e = cc
miss m q false e = sym (+ℤ-zero m)

pub hit : (m q : ℤ) (b : Bool) → b ≡ true → m +ℤ q ≡ m +ℤ (if b then q else pos 0)
hit m q true e = refl
hit m q false e = cc

pub start_line-key : (key : ℕ) (start : Option Amount) → (start_line key start).key ≡ key
start_line-key key none = refl
start_line-key key (some start) = refl

pub line_for-present :
    (before : List (ℕ × Amount)) (key : ℕ) (t : Tallies)
    → is_some (find (is_line key) t.lines) ≡ true
    → line_for before key t ≡ t
unfolding line_for
line_for-present before key t e = rw (line_for, e) refl

pub line_for-absent :
    (before : List (ℕ × Amount)) (key : ℕ) (t : Tallies)
    → is_some (find (is_line key) t.lines) ≡ false
    → (line_for before key t).lines ≡ t.lines ++ start_line key (start_of key before) ∷ []
unfolding line_for
line_for-absent before key t e =
    let made : Tallies = record {
      lines = t.lines ++ start_line key (start_of key before) ∷ [];
      total = start_total t.total (start_of key before);
    } in
    let eq : line_for before key t ≡ made = rw (line_for, e) refl in ap Tallies.lines eq
