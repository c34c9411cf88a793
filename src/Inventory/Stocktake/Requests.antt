-- ===== src/Inventory/Stocktake/Requests.antt =====
-- The parts that the requests of src/modules/inventory/stocktake.service.ts share, and what each does to
-- the rows of the counts.
use stock_mgt.Prelude.{
  ℕ, ◌≡◌, refl, ◌∙◌, ap, sym, true, false, Option, none, some, List, [], ◌∷◌, ◌++◌, arith, ◌==◌,
  ==_refl, Option-cases, inl, inr, Bool-cases,
}
use stock_mgt.Prelude.Result.{Result, ok, err}
use stock_mgt.Inventory.Stock.Writer.{StockWriter}
use stock_mgt.Inventory.Stock.Calls.{Action, Done, Done-map, lift-Checked}
use stock_mgt.Inventory.Stocktake.Rows.{
  Stocktake, Counting, find_stocktake, update_stocktake, require_open, is_open, find_one,
}
use stock_mgt.Inventory.Stocktake.Count.{on_stock, opened}

-- A change that keeps a row's id.
abbrev pub KeepsId : (Stocktake → Stocktake) → Type 0
KeepsId change = (s : Stocktake) → (change s).id ≡ s.id

pub find-update :
    (id : ℕ) (change : Stocktake → Stocktake) (rows : List Stocktake) {s : Stocktake}
    → KeepsId change
    → find_stocktake id rows ≡ some s
    → find_stocktake id (update_stocktake id change rows) ≡ some (change s)
find-update id change [] keeps h = cc
find-update id change (r ∷ rows) {s} keeps h = elim (Bool-cases (r.id == id)) [
  | inl e ↦
      let h' = rw e at h in
      let same : ((change r).id == id) ≡ true = ap (λ n. n == id) (keeps r) ∙ e in
      rw (e, same) (ap (λ o. elim o [ none ↦ none | some x ↦ some (change x) ]) h')
  | inr e ↦ let h' = rw e at h in rw (e, e) (find-update id change rows keeps h')
]

-- Other rows stay.
pub find-update_other :
    (id other : ℕ) (change : Stocktake → Stocktake) (rows : List Stocktake)
    → KeepsId change
    → (other == id) ≡ false
    → find_stocktake other (update_stocktake id change rows) ≡ find_stocktake other rows
find-update_other id other change [] keeps h = refl
find-update_other id other change (r ∷ rows) keeps h = elim (Bool-cases (r.id == id)) [
  | inl e ↦
      let skipped : (r.id == other) ≡ false = ground arith in
      let same : ((change r).id == other) ≡ false = ap (λ n. n == other) (keeps r) ∙ skipped in
      rw (e, same, skipped) (find-update_other id other change rows keeps h)
  | inr e ↦ rw (e, find-update_other id other change rows keeps h)
]

has_id :
    (id : ℕ) (s : Stocktake) (rows : List Stocktake)
    → find_stocktake id rows ≡ some s
    → (s.id == id) ≡ true
has_id id s [] h = cc
has_id id s (r ∷ rows) h = elim (Bool-cases (r.id == id)) [
  | inl e ↦
      let h' = rw e at h in
      let same : r ≡ s = ap (λ o. elim o [ none ↦ r | some x ↦ x ]) h' in
      ap (λ (x : Stocktake). x.id == id) (sym same) ∙ e
  | inr e ↦ let h' = rw e at h in has_id id s rows h'
]

-- What was found has the id that it was found by.
pub found_by_id :
    (id : ℕ) (s : Stocktake) (rows : List Stocktake)
    → find_stocktake id rows ≡ some s
    → find_stocktake s.id rows ≡ some s
found_by_id id s [] h = cc
found_by_id id s (r ∷ rows) h = elim (Bool-cases (r.id == id)) [
  | inl e ↦
      let h' = rw e at h in
      let same : r ≡ s = ap (λ o. elim o [ none ↦ r | some x ↦ x ]) h' in
      let named : (r.id == s.id) ≡ true =
        ap (λ (x : Stocktake). r.id == x.id) (sym same) ∙ ==_refl r.id in
      rw named h'
  | inr e ↦
      let h' = rw e at h in
      let named : (s.id == id) ≡ true = has_id id s rows h' in
      let other : (r.id == s.id) ≡ false = ground arith in rw other (found_by_id id s rows h')
]

pub find-insert :
    (id : ℕ) (rows : List Stocktake) (new s : Stocktake)
    → find_stocktake id rows ≡ some s
    → find_stocktake id (rows ++ new ∷ []) ≡ some s
find-insert id [] new s h = cc
find-insert id (r ∷ rows) new s h = elim (Bool-cases (r.id == id)) [
  | inl e ↦ let h' = rw e at h in rw e h'
  | inr e ↦ let h' = rw e at h in rw e (find-insert id rows new s h')
]

pub require_open-ok :
    (o : Option Stocktake) (s : Stocktake)
    → require_open o ≡ ok s
    → (o ≡ some s) × (is_open s.status ≡ true)
require_open-ok none s h = cc
require_open-ok (some r) s h = elim (Bool-cases (is_open r.status)) [
  | inr e ↦ absurd (let h' = rw e at h in cc)
  | inl e ↦
      let h' = rw e at h in
      let same : r ≡ s = ap (λ x. elim x [ ok a ↦ a | err error ↦ r ]) h' in
      (ap some same, ap (λ (x : Stocktake). is_open x.status) (sym same) ∙ e)
]

module _ {Db : Type 0} where
  -- A request that goes on has found its count, and it is open.
  pub opened-Done :
      (id : ℕ) (c : Counting Db)
      → Done
          (λ s c'. (c' ≡ c) × (find_stocktake id c.stocktakes ≡ some s) × (is_open s.status ≡ true))
          (opened id c)
  opened-Done id c =
      Done-map _
        (λ s c' h.
          let found = require_open-ok (find_stocktake id c.stocktakes) s h.1 in
          (h.0, found.0, found.1))
        (lift-Checked _ c)

  pub on_stock-Done :
      {A : Type 0} {P : A → Db → Type 0} (m : Action Db A) (c : Counting Db)
      → Done P (m c.stock)
      → Done (λ a c'. (c'.stocktakes ≡ c.stocktakes) × P a c'.stock) (on_stock m c)
  on_stock-Done {A} {P} m c h = go (m c.stock) h
    where
      go :
          (x : Result A × Db)
          → Done P x
          → Done
              (λ a c'. (c'.stocktakes ≡ c.stocktakes) × P a c'.stock)
              (let y : Result A × Counting Db = (x.0, record c { stock = x.1 }) in y)
      go x (Done.returned a d' p) = Done.returned a _ (refl, p)
      go x (Done.threw e d') = Done.threw e _

module _ {Db : Type 0} (w : StockWriter Db) where
  pub find_one-same : (id : ℕ) (c : Counting Db) → Done (λ _ c'. c' ≡ c) (find_one w id c)
  unfolding find_one
  find_one-same id c = elim (Option-cases (find_stocktake id c.stocktakes)) [
    | inl e ↦ rw (find_one, e) (Done.threw _ _)
    | inr (s, e) ↦ rw (find_one, e) (Done.returned _ _ refl)
  ]
