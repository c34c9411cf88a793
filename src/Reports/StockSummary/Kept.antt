-- ===== src/Reports/StockSummary/Kept.antt =====
-- The lines that the loops of src/modules/reports/stock-summary.ts keep, followed for one item.
use mathlib.Core.Path.{subst}
use stock_mgt.Prelude.{
  ℕ, ◌≡◌, refl, sym, ap, ◌∙◌, Bool, true, false, not, Option, none, some, List, [], ◌∷◌, ◌++◌, ◌==◌,
  if◌then◌else◌, is_some, arith, Bool-cases, Option-cases, inl, inr, ==_iff, ==_refl,
}
use stock_mgt.Prelude.Int.{ℤ, pos, ◌+ℤ◌, eqb_ℤ, int_laws, +ℤ_assoc, +ℤ-zero, zero-+ℤ}
use stock_mgt.Prelude.Lists.{find}
use stock_mgt.Reports.StockSummary.{
  SummaryColumn, column_for, Amount, MovementTotal, no_figures, Tally, Tallies, is_line, start_of,
  start_line, line_for, open_lines, update_line, count_in, count_row, open_line, count_rows,
  tallies_of,
}
use stock_mgt.Reports.StockSummary.Columns.{
  Balanced, start_quantity, moved_in, add_to-Balanced, closing-add_to, miss, hit, start_line-key,
  line_for-present, line_for-absent,
}

module _ (before : List (ℕ × Amount)) (k : ℕ) where
  -- The line of an item when its movements so far add up to `m`.
  abbrev pub At : ℤ → Option Tally → Type 0
  At m none = m ≡ pos 0
  At m (some line) =
      Balanced line.quantity × (line.quantity.closing ≡ start_quantity (start_of k before) +ℤ m)

  At-start_line :
      (m : ℤ) (start : Option Amount)
      → start_of k before ≡ start
      → m ≡ pos 0
      → At m (some (start_line k start))
  At-start_line m none e h = (omega int_laws, rw (e, h) (omega int_laws))
  At-start_line m (some start) e h = (
    add_to-Balanced no_figures SummaryColumn.opening start.quantity (omega int_laws),
    rw (e, h) (omega int_laws),
  )

  find-append :
      (lines : List Tally) (line : Tally)
      → is_some (find (is_line k) lines) ≡ false
      → find (is_line k) (lines ++ line ∷ []) ≡ (if is_line k line then some line else none)
  find-append [] line h = refl
  find-append (l ∷ lines) line h = ground (arith, find-append lines line)

  find-append_other :
      (lines : List Tally) (line : Tally)
      → is_line k line ≡ false
      → find (is_line k) (lines ++ line ∷ []) ≡ find (is_line k) lines
  find-append_other [] line h = rw h refl
  find-append_other (l ∷ lines) line h = ground (arith, find-append_other lines line h)

  find-update_same :
      (column : SummaryColumn) (a : Amount) (lines : List Tally) {line : Tally}
      → find (is_line k) lines ≡ some line
      → find (is_line k) (update_line k (count_in column a) lines) ≡ some (count_in column a line)
  find-update_same column a [] h = cc
  find-update_same column a (l ∷ lines) {line} h = elim (Bool-cases (l.key == k)) [
    | inl e ↦
        let same : l ≡ line = ground arith in rw (e, e) (ap (λ x. some (count_in column a x)) same)
    | inr e ↦ rw (e, e) (find-update_same column a lines (ground arith))
  ]

  find-update_other :
      (key : ℕ) (column : SummaryColumn) (a : Amount) (lines : List Tally)
      → (key == k) ≡ false
      → find (is_line k) (update_line key (count_in column a) lines) ≡ find (is_line k) lines
  find-update_other key column a [] h = refl
  find-update_other key column a (l ∷ lines) h = elim (Bool-cases (l.key == key)) [
    | inl e ↦ let other : (l.key == k) ≡ false = ground arith in rw (e, other) refl
    | inr e ↦ rw e (ground (arith, find-update_other key column a lines h))
  ]

  At-none : (m : ℤ) (o : Option Tally) → is_some o ≡ false → At m o → m ≡ pos 0
  At-none m none e h = h
  At-none m (some line) e h = cc

  find-made :
      (t : Tallies)
      → is_some (find (is_line k) t.lines) ≡ false
      → find (is_line k) (line_for before k t).lines ≡ some (start_line k (start_of k before))
  find-made t e =
      let mine : is_line k (start_line k (start_of k before)) ≡ true =
        ap (λ x. x == k) (start_line-key k (start_of k before)) ∙ ==_refl k in
      ap (find (is_line k)) (line_for-absent before k t e)
      ∙ (find-append t.lines (start_line k (start_of k before)) e
          ∙ ap (λ b. if b then some (start_line k (start_of k before)) else none) mine)

  At-made :
      (m : ℤ) (t : Tallies)
      → is_some (find (is_line k) t.lines) ≡ false
      → At m (find (is_line k) t.lines)
      → At m (find (is_line k) (line_for before k t).lines)
  At-made m t e h =
      subst (At m) (sym (find-made t e))
        (At-start_line m (start_of k before) refl (At-none m _ e h))

  find-line_for_other :
      (key : ℕ) (t : Tallies)
      → (key == k) ≡ false
      → find (is_line k) (line_for before key t).lines ≡ find (is_line k) t.lines
  find-line_for_other key t other = elim (Bool-cases (is_some (find (is_line key) t.lines))) [
    | inl e ↦ ap (λ (x : Tallies). find (is_line k) x.lines) (line_for-present before key t e)
    | inr e ↦
        ap (find (is_line k)) (line_for-absent before key t e)
        ∙ find-append_other t.lines (start_line key (start_of key before))
            (ap (λ x. x == k) (start_line-key key (start_of key before)) ∙ other)
  ]

  At-line_for_same :
      (m : ℤ) (t : Tallies)
      → At m (find (is_line k) t.lines)
      → At m (find (is_line k) (line_for before k t).lines)
  At-line_for_same m t h = elim (Bool-cases (is_some (find (is_line k) t.lines))) [
    | inl e ↦
        subst (λ (x : Tallies). At m (find (is_line k) x.lines))
          (sym (line_for-present before k t e)) h
    | inr e ↦ At-made m t e h
  ]

  At-line_for :
      (m : ℤ) (key : ℕ) (t : Tallies)
      → At m (find (is_line k) t.lines)
      → At m (find (is_line k) (line_for before key t).lines)
  At-line_for m key t h = elim (Bool-cases (key == k)) [
    | inl e ↦
        subst (λ x. At m (find (is_line k) (line_for before x t).lines)) (sym ((==_iff key k).0 e))
          (At-line_for_same m t h)
    | inr e ↦ subst (At m) (sym (find-line_for_other key t e)) h
  ]

  present-line_for :
      (t : Tallies) → (line : Tally) × (find (is_line k) (line_for before k t).lines ≡ some line)
  present-line_for t = elim (Option-cases (find (is_line k) t.lines)) [
    | inl e ↦ (_, find-made t (ap is_some e))
    | inr (line, e) ↦ (
      line,
      ap (λ (x : Tallies). find (is_line k) x.lines) (line_for-present before k t (ap is_some e))
          ∙ e,
    )
  ]

  At-if :
      (b : Bool) (x y : Tallies)
      → At (pos 0) (find (is_line k) x.lines)
      → At (pos 0) (find (is_line k) y.lines)
      → At (pos 0) (find (is_line k) (if b then x else y).lines)
  At-if true x y h h' = h
  At-if false x y h h' = h'

  At-open_lines :
      (rest : List (ℕ × Amount)) (t : Tallies)
      → At (pos 0) (find (is_line k) t.lines)
      → At (pos 0) (find (is_line k) (open_lines before rest t).lines)
  unfolding open_lines
  At-open_lines [] t h = h
  At-open_lines ((key, start) ∷ rest) t h = At-open_lines rest (open_line before key start t) (
      At-if (not (eqb_ℤ start.quantity (pos 0))) (line_for before key t) t
        (At-line_for (pos 0) key t h) h)

  At-count_in :
      (m : ℤ) (column : SummaryColumn) (a : Amount) (line : Tally)
      → At m (some line)
      → At (m +ℤ a.quantity) (some (count_in column a line))
  At-count_in m column a line (balanced, closes) = (
    add_to-Balanced line.quantity column a.quantity balanced,
    closing-add_to line.quantity column a.quantity ∙ rw closes (+ℤ_assoc _ m a.quantity),
  )

  At-hit :
      (m : ℤ) (column : SummaryColumn) (a : Amount) (t : Tallies)
      → At m (find (is_line k) t.lines)
      → At
          (m +ℤ a.quantity)
          (find (is_line k) (update_line k (count_in column a) (line_for before k t).lines))
  At-hit m column a t h =
      let (line, at) = present-line_for t in
      let there : At m (some line) = subst (At m) at (At-line_for_same m t h) in
      subst (At (m +ℤ a.quantity)) (sym (find-update_same column a (line_for before k t).lines at))
        (At-count_in m column a line there)

  At-count_row :
      (m : ℤ) (row : MovementTotal) (t : Tallies)
      → At m (find (is_line k) t.lines)
      → At
          (m +ℤ (if row.key == k then row.amount.quantity else pos 0))
          (find (is_line k) (count_row before row t).lines)
  At-count_row m row t h =
      let column = column_for row.type row.reason in
      let found = line_for before row.key t in
      let there = At-line_for m row.key t h in
      elim (Bool-cases (row.key == k)) [
        | inl e ↦
            subst
              (λ x. At (m +ℤ (if row.key == k then row.amount.quantity else pos 0)) (
                find (is_line k)
                  (update_line x (count_in column row.amount) (line_for before x t).lines)))
              (sym ((==_iff row.key k).0 e))
              (subst
                (λ x. At x (
                  find (is_line k)
                    (update_line k (count_in column row.amount) (line_for before k t).lines)))
                (hit m row.amount.quantity (row.key == k) e) (At-hit m column row.amount t h))
        | inr e ↦
            subst (At (m +ℤ (if row.key == k then row.amount.quantity else pos 0)))
              (sym (find-update_other row.key column row.amount found.lines e))
              (subst (λ x. At x (find (is_line k) found.lines))
                (miss m row.amount.quantity (row.key == k) e) there)
      ]

  At-count_rows :
      (m : ℤ) (during : List MovementTotal) (t : Tallies)
      → At m (find (is_line k) t.lines)
      → At (m +ℤ moved_in k during) (find (is_line k) (count_rows before during t).lines)
  unfolding count_rows
  At-count_rows m [] t h = subst (λ x. At x (find (is_line k) t.lines)) (sym (+ℤ-zero m)) h
  At-count_rows m (row ∷ during) t h =
      let part = if row.key == k then row.amount.quantity else pos 0 in
      subst (λ x. At x (find (is_line k) (count_rows before during (count_row before row t)).lines))
        (+ℤ_assoc m part (moved_in k during))
        (At-count_rows (m +ℤ part) during (count_row before row t) (At-count_row m row t h))

  pub At-tallies_of :
      (during : List MovementTotal)
      → At (moved_in k during) (find (is_line k) (tallies_of before during).lines)
  At-tallies_of during =
      subst (λ x. At x (find (is_line k) (tallies_of before during).lines))
        (zero-+ℤ (moved_in k during))
        (At-count_rows (pos 0) during _
          (At-open_lines before (record { lines = []; total = no_figures }) refl))
