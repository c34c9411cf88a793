-- ===== src/Inventory/Stocktake/Edits.antt =====
-- What each request of src/modules/inventory/stocktake.service.ts makes of the rows of the counts.
use stock_mgt.Prelude.{
  ℕ, ◌≡◌, refl, ◌∙◌, ap, sym, true, false, Option, none, some, List, [], ◌∷◌, ◌==◌, ==_iff, map,
  not, is_some, ◌++◌, inl, inr, Bool-cases,
}
use mathlib.Core.Path.{subst}
use stock_mgt.Prelude.Lists.{All, All-append}
use stock_mgt.Inventory.Stock.Tables.{Context}
use stock_mgt.Inventory.Stock.Writer.{StockWriter}
use stock_mgt.Inventory.Stock.Calls.{Action, Done, Done->>=, Done-map, Checked, lift-Checked, ◌>>◌}
use stock_mgt.Inventory.Stock.Operations.{Directory, location_of}
use stock_mgt.Inventory.Stocktake.Rows.{
  Stocktake, Counting, find_stocktake, update_stocktake, is_open, find_one, on_hand_by_line,
}
use stock_mgt.Inventory.Stocktake.Count.{
  CreateStocktake, CountLine, create, count, remove_line, cancel, insert, as_cancelled,
  new_stocktake, with_lines, remove_by_id, put_lines,
}
use stock_mgt.Inventory.Stock.Operations.Reads.{location_of-same}
use stock_mgt.Inventory.Stocktake.Sheet.{Distinct}
use stock_mgt.Inventory.Stocktake.Lines.{put_lines-Distinct, select-Distinct}
use stock_mgt.Inventory.Stocktake.Requests.{
  KeepsId, find-update_other, find-insert, opened-Done, on_stock-Done, find_one-same,
}

-- What each request makes of the rows: one row more, or a change of the open count that it names.
pub data Edit (rows : List Stocktake) : List Stocktake → Type 0 where
  nothing : Edit rows rows
  added : (s : Stocktake) → s.lines ≡ [] → Edit rows (rows ++ s ∷ [])
  changed :
      (id : ℕ) (s : Stocktake) (change : Stocktake → Stocktake)
      → find_stocktake id rows ≡ some s
      → is_open s.status ≡ true
      → KeepsId change
      → ((row : Stocktake) → Distinct row.lines → Distinct (change row).lines)
      → Edit rows (update_stocktake id change rows)

counting_eq :
    {Db : Type 0} (c1 c : Counting Db) → c1.stock ≡ c.stock → c1.stocktakes ≡ c.stocktakes → c1 ≡ c
counting_eq c1 c h k = cc

-- A count that is closed stays as it is.
pub Edit-closed :
    {rows rows' : List Stocktake} (id : ℕ) (s : Stocktake)
    → Edit rows rows'
    → find_stocktake id rows ≡ some s
    → is_open s.status ≡ false
    → find_stocktake id rows' ≡ some s
Edit-closed id s Edit.nothing h shut = h
Edit-closed {rows} id s (Edit.added new empty) h shut = find-insert id rows new s h
Edit-closed {rows} id s (Edit.changed other o change found is_open_o keeps apart) h shut =
    elim (Bool-cases (id == other)) [
      | inr e ↦ find-update_other other id change rows keeps e ∙ h
      | inl e ↦
          let same : id ≡ other = (==_iff id other).0 e in
          let both : some o ≡ some s = sym found ∙ ap (λ n. find_stocktake n rows) (sym same) ∙ h in
          let is_o : o ≡ s = ap (λ x. elim x [ none ↦ s | some y ↦ y ]) both in
          let clash : true ≡ false =
            sym is_open_o ∙ ap (λ (x : Stocktake). is_open x.status) is_o ∙ shut in
          cc
    ]

abbrev pub AllDistinct : List Stocktake → Type 0
AllDistinct = All (λ (s : Stocktake). Distinct s.lines)

update-Distinct :
    (id : ℕ) (change : Stocktake → Stocktake) (rows : List Stocktake)
    → ((row : Stocktake) → Distinct row.lines → Distinct (change row).lines)
    → AllDistinct rows
    → AllDistinct (update_stocktake id change rows)
update-Distinct id change [] keeps h = tt
update-Distinct id change (r ∷ rows) keeps (first, rest) = elim (Bool-cases (r.id == id)) [
  | inl e ↦ rw e (keeps r first, update-Distinct id change rows keeps rest)
  | inr e ↦ rw e (first, update-Distinct id change rows keeps rest)
]

pub Edit-Distinct :
    {rows rows' : List Stocktake} → Edit rows rows' → AllDistinct rows → AllDistinct rows'
Edit-Distinct Edit.nothing h = h
Edit-Distinct {rows} (Edit.added new empty) h =
    All-append (λ (s : Stocktake). Distinct s.lines) rows (new ∷ []) h (rw empty tt, tt)
Edit-Distinct {rows} (Edit.changed id s change found is_open_s keeps apart) h =
    update-Distinct id change rows apart h

module _ {Db : Type 0} (w : StockWriter Db) (directory : Directory Db) (ctx : Context) where
  abbrev pub Edits : {A : Type 0} → Counting Db → A → Counting Db → Type 0
  Edits c _ c' = (c'.stock ≡ c.stock) × Edit c.stocktakes c'.stocktakes

  -- A change of an open count, and then the view of it.
  shown-Edit :
      (id : ℕ) (s : Stocktake) (change : Stocktake → Stocktake) (c0 c : Counting Db)
      (m : Action (Counting Db) (Unit {0}))
      → c ≡ c0
      → Done
          (λ _ c'. (c'.stock ≡ c.stock) × (c'.stocktakes ≡ update_stocktake id change c.stocktakes))
          (m c)
      → find_stocktake id c0.stocktakes ≡ some s
      → is_open s.status ≡ true
      → KeepsId change
      → ((row : Stocktake) → Distinct row.lines → Distinct (change row).lines)
      → Done (Edits c0) ((m >> find_one w id) c)
  shown-Edit id s change c0 c m same writes found is_open_s keeps apart =
      Done->>= _ _ _ _ writes λ _ c1 h1.
        Done-map _
          (λ _ c' h. (
            ap (λ x. x.stock) h ∙ h1.0 ∙ ap (λ x. x.stock) same,
            subst (Edit c0.stocktakes)
                (sym (
                  ap (λ x. x.stocktakes) h
                  ∙ h1.1
                  ∙ ap (λ x. update_stocktake id change x.stocktakes) same))
                (Edit.changed id s change found is_open_s keeps apart),
          ))
          (find_one-same w id c1)

  pub cancel-Edit : (id : ℕ) (c : Counting Db) → Done (Edits c) (cancel w directory ctx id c)
  unfolding cancel
  cancel-Edit id c = Done->>= _ _ _ _ (opened-Done id c) λ s c1 h1.
      shown-Edit id s (as_cancelled ctx) c c1 _ h1.0 (Done.returned _ _ (refl, refl)) h1.1 h1.2
        (λ x. refl) (λ row apart. apart)

  pub remove_line-Edit :
      (id product_id : ℕ) (variant_id : Option ℕ) (c : Counting Db)
      → Done (Edits c) (remove_line w directory ctx id product_id variant_id c)
  unfolding remove_line
  remove_line-Edit id product_id variant_id c = Done->>= _ _ _ _ (opened-Done id c) λ s c1 h1.
      Done->>= (Checked _ c1) _ _ _ (lift-Checked _ c1) λ line c2 h2.
        shown-Edit id s (λ row. with_lines (remove_by_id line.id row.lines) row) c c2 _
          (h2.0 ∙ h1.0) (Done.returned _ _ (refl, refl)) h1.1 h1.2 (λ x. refl)
          (λ row apart. select-Distinct (λ l. not (l.id == line.id)) row.lines apart)

  pub count-Edit :
      (id : ℕ) (inputs : List CountLine) (c : Counting Db)
      → Done (Edits c) (count w directory ctx id inputs c)
  unfolding count
  count-Edit id inputs c = Done->>= _ _ _ _ (opened-Done id c) λ s c1 h1.
      Done->>= (Checked _ c1) _ _ _ (lift-Checked _ c1) λ organization_id c2 h2.
        Done->>= (Checked _ c2) _ _ _ (lift-Checked _ c2) λ _ c3 h3.
          let expected =
            on_hand_by_line w s.location_id (map (λ (l : CountLine). l.product_id) inputs)
              c3.stock in
          shown-Edit id s (λ row. with_lines (put_lines ctx 0 expected inputs row.lines) row) c c3 _
            (h3.0 ∙ h2.0 ∙ h1.0) (Done.returned _ _ (refl, refl)) h1.1 h1.2 (λ x. refl)
            (λ row apart. put_lines-Distinct ctx 0 expected inputs row.lines apart)

  insert-Edit :
      (s : Stocktake) (c0 c : Counting Db) → c ≡ c0 → s.lines ≡ [] → Done (Edits c0) (insert s c)
  insert-Edit s c0 c same empty = elim (Bool-cases (is_some (find_stocktake s.id c.stocktakes))) [
    | inl e ↦ rw e (Done.threw _ _)
    | inr e ↦ rw e (
        Done.returned _ _ (
          ap (λ x. x.stock) same,
          subst (λ (rows : List Stocktake). Edit rows (c.stocktakes ++ s ∷ []))
              (ap (λ x. x.stocktakes) same) (Edit.added s empty),
        ))
  ]

  pub create-Edit :
      (input : CreateStocktake) (c : Counting Db) → Done (Edits c) (create w directory ctx input c)
  unfolding create
  create-Edit input c =
      Done->>= _ _ _ _
        (on_stock-Done (location_of w directory ctx input.location_id) c
          (location_of-same w directory ctx input.location_id c.stock))
        λ location_id c1 h1. Done->>= (Checked _ c1) _ _ _ (lift-Checked _ c1) λ _ c2 h2.
          Done->>= (Checked _ c2) _ _ _ (lift-Checked _ c2) λ organization_id c3 h3.
            insert-Edit (new_stocktake w directory ctx input location_id organization_id) c c3
              (h3.0 ∙ h2.0 ∙ counting_eq c1 c h1.1 h1.0) refl
