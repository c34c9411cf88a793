-- ===== src/Reports/StockSummary/Closing.antt =====
-- What each line of src/modules/reports/stock-summary.ts closes with.
use stock_mgt.Prelude.{
  ℕ, ◌≡◌, refl, sym, ◌∙◌, Option, none, some, List, [], ◌∷◌, map, ◌==◌, if◌then◌else◌, Bool-cases,
  inl, inr,
}
use stock_mgt.Prelude.Int.{ℤ, ◌+ℤ◌}
use stock_mgt.Prelude.Lists.{find}
use stock_mgt.Reports.StockSummary.{
  Amount, MovementTotal, SummaryFigures, SummaryLine, Tally, is_line, start_of, tallies_of,
  summarise_stock,
}
use stock_mgt.Reports.StockSummary.Columns.{Balanced, start_quantity, moved_in}
use stock_mgt.Reports.StockSummary.Kept.{At, At-tallies_of}

-- The quantity of the line that a summary has for an item.
abbrev pub quantity_of : ℕ → List SummaryLine → Option SummaryFigures
quantity_of k [] = none
quantity_of k (line ∷ lines) = if line.key == k then some line.quantity else quantity_of k lines

abbrev figures_of : Option Tally → Option SummaryFigures
figures_of none = none
figures_of (some line) = some line.quantity

quantity_of-map :
    (k : ℕ) (f : Tally → SummaryLine) (lines : List Tally)
    → ((line : Tally) → (f line).key ≡ line.key)
    → ((line : Tally) → (f line).quantity ≡ line.quantity)
    → quantity_of k (map f lines) ≡ figures_of (find (is_line k) lines)
quantity_of-map k f [] keeps same = refl
quantity_of-map k f (line ∷ lines) keeps same = elim (Bool-cases (line.key == k)) [
  | inl e ↦ rw (keeps line, e, same line) refl
  | inr e ↦ rw (keeps line, e) (quantity_of-map k f lines keeps same)
]

At-figures :
    (before : List (ℕ × Amount)) (k : ℕ) (m : ℤ) (o : Option Tally) {figures : SummaryFigures}
    → At before k m o
    → figures_of o ≡ some figures
    → Balanced figures × (figures.closing ≡ start_quantity (start_of k before) +ℤ m)
At-figures before k m none h e = cc
At-figures before k m (some line) {figures} h e =
    let same : line.quantity ≡ figures = cc in rw (← same) h

-- The line of an item closes with what the item started with and all its movements of the period,
-- and its four columns make up just that closing quantity.
pub summarise_stock-closing :
    (d : ℕ) (before : List (ℕ × Amount)) (during : List MovementTotal) (k : ℕ)
    {figures : SummaryFigures}
    → quantity_of k (summarise_stock d before during).lines ≡ some figures
    → Balanced figures × (figures.closing ≡ start_quantity (start_of k before) +ℤ moved_in k during)
unfolding summarise_stock
summarise_stock-closing d before during k h =
    At-figures before k (moved_in k during) (find (is_line k) (tallies_of before during).lines)
      (At-tallies_of before k during)
      (sym (quantity_of-map k _ (tallies_of before during).lines (λ line. refl) (λ line. refl)) ∙ h)
