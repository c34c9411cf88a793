-- ===== src/Inventory/Stock/Memory.antt =====
-- A database in memory that does what `Writer` asks: the laws can be met, and the operations run.
use stock_mgt.Prelude.{
  ◌≤◌, ◌≡◌, ◌≢◌, refl, ap, not, Bool, true, false, ◌&&◌, List, [], ◌∷◌, ◌++◌, map, Option, some,
  none, arith, ◌==◌, inl, inr, Bool-cases, is_some, opt_eq,
}
use stock_mgt.Prelude.Int.{ℤ}
use stock_mgt.Prelude.Lists.{any}
use stock_mgt.Inventory.Stock.Tables.{
  Key, key_eq, key_eq→eq, StockMovement, StockBalance, StockBatch, ProductVariant,
}
use stock_mgt.Inventory.Stock.Writer.{StockWriter, IsDatabase, Wrote, rows_at, bump}

abbrev OneRow : List StockBalance → Type 0
OneRow bs = (k : Key) → rows_at k bs ≤ 1

pub record Memory : Type 0 where
  pub movements : List StockMovement
  pub balances : List StockBalance
  pub batches : List StockBatch
  pub variants : List ProductVariant
  pub one_row : (k : Key) → rows_at k balances ≤ 1

pub rows_at-bump :
    (k key : Key) (delta : ℤ) (bs : List StockBalance)
    → rows_at k (map (bump key delta) bs) ≡ rows_at k bs
rows_at-bump k key delta [] = refl
rows_at-bump k key delta (b ∷ bs) = elim (Bool-cases (key_eq key b.key)) [
  | inl e ↦ rw (e, rows_at-bump k key delta bs)
  | inr e ↦ rw (e, rows_at-bump k key delta bs)
]

-- One more row for a key that has none.
add-OneRow :
    (b : StockBalance) (bs : List StockBalance)
    → (rows_at b.key bs == 0) ≡ true
    → OneRow bs
    → OneRow (b ∷ bs)
add-OneRow b bs h one k = elim (Bool-cases (key_eq k b.key)) [
  | inl e ↦
      let same : rows_at k bs ≡ rows_at b.key bs = ap (λ x. rows_at x bs) (key_eq→eq k b.key e) in
      rw e (grind arith)
  | inr e ↦ rw e (grind (arith, one k))
]

-- The unique indexes: no row that is added has the key of another.
abbrev new_rows : List StockBalance → List StockBalance → Bool
new_rows [] old = true
new_rows (b ∷ bs) old = (rows_at b.key (bs ++ old) == 0) && new_rows bs old

abbrev new_ids : List StockMovement → List StockMovement → Bool
new_ids [] old = true
new_ids (m ∷ ms) old =
    not (is_some m.id && any (λ (x : StockMovement). opt_eq x.id m.id) (ms ++ old))
    && new_ids ms old

pub append-OneRow :
    (bs old : List StockBalance) → new_rows bs old ≡ true → OneRow old → OneRow (bs ++ old)
append-OneRow [] old h one = one
append-OneRow (b ∷ bs) old h one =
    let both : ((rows_at b.key (bs ++ old) == 0) ≡ true) × (new_rows bs old ≡ true) =
      ground arith in
    add-OneRow b (bs ++ old) both.0 (append-OneRow bs old both.1 one)

abbrev insert_movements : Bool → List StockMovement → Memory → Option Memory
insert_movements true ms d = some (record d { movements = ms ++ d.movements })
insert_movements false ms d = none

abbrev insert_balances :
    (bs : List StockBalance) (d : Memory) (b : Bool) → new_rows bs d.balances ≡ b → Option Memory
insert_balances bs d true h =
    some
      (record d { balances = bs ++ d.balances; one_row = append-OneRow bs d.balances h d.one_row })
insert_balances bs d false h = none

abbrev pub memory : StockWriter Memory
memory = record {
  movements = Memory.movements;
  balances = Memory.balances;
  batches = Memory.batches;
  variants = Memory.variants;
  create_movements = λ ms d. insert_movements (new_ids ms d.movements) ms d;
  create_balances = λ bs d. insert_balances bs d (new_rows bs d.balances) refl;
  create_batches = λ lots d. some (record d { batches = lots ++ d.batches });
  update_balances = λ k delta d. (
    rows_at k d.balances,
    record d {
      balances = map (bump k delta) d.balances;
      one_row = λ x. rw (rows_at-bump x k delta d.balances) (d.one_row x);
    },
  );
}

Wrote-eq :
    (d a d' : Memory) (ms : List StockMovement) (bs : List StockBalance) (lots : List StockBatch)
    → some a ≡ some d'
    → Wrote memory d a ms bs lots
    → Wrote memory d d' ms bs lots
Wrote-eq d a d' ms bs lots e h = let same : a ≡ d' = cc in rw (← same) h

insert_balances_lem :
    (bs : List StockBalance) (d d' : Memory) (b : Bool) (h : new_rows bs d.balances ≡ b)
    → insert_balances bs d b h ≡ some d'
    → Wrote memory d d' d.movements (bs ++ d.balances) d.batches
insert_balances_lem bs d d' true h e = Wrote-eq d _ d' _ _ _ e (refl, refl, refl, refl)
insert_balances_lem bs d d' false h e = cc

insert_movements_lem :
    (ms : List StockMovement) (d d' : Memory) (b : Bool)
    → insert_movements b ms d ≡ some d'
    → Wrote memory d d' (ms ++ d.movements) d.balances d.batches
insert_movements_lem ms d d' true e = Wrote-eq d _ d' _ _ _ e (refl, refl, refl, refl)
insert_movements_lem ms d d' false e = cc

insert_balances-none :
    (x : StockBalance) (d : Memory) (b : Bool) (h : new_rows (x ∷ []) d.balances ≡ b)
    → insert_balances (x ∷ []) d b h ≡ none
    → 1 ≤ rows_at x.key d.balances
insert_balances-none x d true h e = cc
insert_balances-none x d false h e = ground arith

insert_movements-minted :
    (m : StockMovement) (d : Memory)
    → m.id ≡ none
    → insert_movements (new_ids (m ∷ []) d.movements) (m ∷ []) d ≢ none
insert_movements-minted m d e h = cc

-- What `StockWriter` promises can be kept.
pub memory-IsDatabase : IsDatabase memory
memory-IsDatabase = record {
  create_movements_lem = λ ms d d' e. insert_movements_lem ms d d' _ e;
  create_balances_lem = λ bs d d' e. insert_balances_lem bs d d' _ refl e;
  create_batches_lem = λ lots d d' e. Wrote-eq d _ d' _ _ _ e (refl, refl, refl, refl);
  update_balances_lem = λ k delta d. (refl, (refl, refl, refl, refl));
  one_row = λ k d. d.one_row k;
  refused_row = λ b d e. insert_balances-none b d _ refl e;
  minted = insert_movements-minted;
}
