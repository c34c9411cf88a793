-- ===== src/Inventory/Stock/Ledger.antt =====
-- The ledger's sums: what the movements on a key add up to, and what its balance says; and what
-- `applyToBalance` of src/modules/inventory/stock.service.ts does to them.
pub mod Post
use stock_mgt.Prelude.{
  ℕ, ◌+◌, ◌≤◌, ◌<◌, ◌≡◌, ◌≢◌, refl, ap, sym, ◌∙◌, Bool, true, false, Option, none, some, List, [],
  ◌∷◌, ◌++◌, map, arith, ltb, if◌then◌else◌, inl, inr, Bool-cases, Option-cases, ◌==◌, opt_eq,
}
use stock_mgt.Prelude.Int.{
  ℤ, pos, ◌+ℤ◌, int_laws, +ℤ-zero, +ℤ_assoc, pos_part, neg_part, ◌≤ℤ◌, +ℤ_comm, zero-+ℤ,
}
use stock_mgt.Prelude.Lists.{sum_by, sum_ℤ, sum_ℤ-append}
use stock_mgt.Prelude.Result.{Result, ok, err, Error}
use stock_mgt.Inventory.Stock.Tables.{Key, key_eq, key_eq→eq, StockMovement, StockBalance, Context}
use stock_mgt.Inventory.Stock.Writer.{StockWriter, IsDatabase, bump, rows_at}
use stock_mgt.Inventory.Stock.Calls.{Action}
use stock_mgt.Inventory.Stock.Service.{apply_to_balance, require_organization_id}

-- Which rows are summed: those of one key (`key_eq k`), or of one product, option and place.
abbrev pub Test : Type 0
Test = Key → Bool

-- `amount` where a row passes the test, zero where it does not.
abbrev pub on_key : Test → Key → ℤ → ℤ
on_key t key amount = if t key then amount else pos 0

abbrev pub movements_at : Test → List StockMovement → ℤ
movements_at t = sum_ℤ (λ m. on_key t m.key m.quantity)

abbrev pub balances_at : Test → List StockBalance → ℤ
balances_at t = sum_ℤ (λ b. on_key t b.key b.quantity)

pub on_key-add :
    (t : Test) (key : Key) (a b : ℤ) → on_key t key (a +ℤ b) ≡ on_key t key a +ℤ on_key t key b
on_key-add t key a b = elim (Bool-cases (t key)) [ inl e ↦ rw e | inr e ↦ rw e (omega int_laws) ]

bump-none :
    (key : Key) (delta : ℤ) (bs : List StockBalance)
    → rows_at key bs ≡ 0
    → map (bump key delta) bs ≡ bs
bump-none key delta [] h = refl
bump-none key delta (b ∷ bs) h = elim (Bool-cases (key_eq key b.key)) [
  | inl e ↦ absurd (let h' = rw e at h in omega arith)
  | inr e ↦
      let h' = rw e at h in
      rw e (ap (λ (r : List StockBalance). b ∷ r) (bump-none key delta bs (omega arith)))
]

balances_at-bump :
    (t : Test) (key : Key) (delta : ℤ) (bs : List StockBalance)
    → rows_at key bs ≡ 1
    → balances_at t (map (bump key delta) bs) ≡ balances_at t bs +ℤ on_key t key delta
balances_at-bump t key delta [] h = absurd (omega arith)
balances_at-bump t key delta (b ∷ bs) h = elim (Bool-cases (key_eq key b.key)) [
  | inl e ↦
      let h' = rw e at h in
      let same : on_key t b.key delta ≡ on_key t key delta =
        ap (λ (x : Key). on_key t x delta) (sym (key_eq→eq key b.key e)) in
      rw (e, bump-none key delta bs (omega arith), on_key-add t b.key b.quantity delta, same)
        (omega int_laws)
  | inr e ↦
      let h' = rw e at h in rw (e, balances_at-bump t key delta bs (omega arith)) (omega int_laws)
]

module _ {Db : Type 0} (w : StockWriter Db) where
  -- The sum of the movements that pass a test, and of the cached balances.
  unfoldable pub moved_where : Test → Db → ℤ
  moved_where t d = movements_at t (w.movements d)

  unfoldable pub held_where : Test → Db → ℤ
  held_where t d = balances_at t (w.balances d)

  -- The sum of the movements on a key, and the cached balance.
  abbrev pub moved : Key → Db → ℤ
  moved k = moved_where (key_eq k)

  abbrev pub held : Key → Db → ℤ
  held k = held_where (key_eq k)

  -- Every balance is the sum of its movements: the check of test/smoke.mjs.
  abbrev pub Reconciles : Db → Type 0
  Reconciles d = (k : Key) → moved k d ≡ held k d

  -- From `d` to `d'` the movements and the balances have both changed by `change`.
  abbrev pub Posted : Db → Db → (Test → ℤ) → Type 0
  Posted d d' change =
      (t : Test)
      → (moved_where t d' ≡ moved_where t d +ℤ change t)
        × (held_where t d' ≡ held_where t d +ℤ change t)

  -- The sums are those of the tables.
  pub Posted-same :
      (d d2 d' : Db) (change : Test → ℤ)
      → w.movements d2 ≡ w.movements d
      → w.balances d2 ≡ w.balances d
      → Posted d2 d' change
      → Posted d d' change
  unfolding moved_where held_where
  Posted-same d d2 d' change m b p t = rw (← m, ← b) (p t)

  pub Posted-Reconciles :
      (d d' : Db) (change : Test → ℤ) → Posted d d' change → Reconciles d → Reconciles d'
  Posted-Reconciles d d' change p r k = rw ((p (key_eq k)).0, (p (key_eq k)).1, r k)

  module _ (laws : IsDatabase w) (ctx : Context) where
    -- A balance that is moved: `moved` stays and `held` follows.
    abbrev pub Moves : Key → ℤ → Db → Result (Unit {0}) × Db → Type 0
    Moves key delta d (ok _, d') =
        (w.movements d' ≡ w.movements d)
        × (w.batches d' ≡ w.batches d)
        × (w.variants d' ≡ w.variants d)
        × ((t : Test) → held_where t d' ≡ held_where t d +ℤ on_key t key delta)
    Moves key delta d (err e, d') = Unit

    held-update :
        (key : Key) (delta : ℤ) (d : Db) (t : Test)
        → rows_at key (w.balances d) ≡ 1
        → held_where t (w.update_balances key delta d).1 ≡ held_where t d +ℤ on_key t key delta
    unfolding held_where
    held-update key delta d t one =
        rw ((laws.update_balances_lem key delta d).1.1)
          (balances_at-bump t key delta (w.balances d) one)

    -- With no row for the key the update changes nothing.
    update-none :
        (key : Key) (delta : ℤ) (d : Db)
        → rows_at key (w.balances d) ≡ 0
        → w.balances (w.update_balances key delta d).1 ≡ w.balances d
    update-none key delta d empty =
        (laws.update_balances_lem key delta d).1.1 ∙ bump-none key delta (w.balances d) empty

    create-Moves :
        (key : Key) (delta : ℤ) (d updated created : Db) (organization_id : ℕ)
        → w.balances updated ≡ w.balances d
        → w.create_balances
            (record { organization_id = organization_id; key = key; quantity = delta } ∷ [])
            updated
          ≡ some created
        → (t : Test) → held_where t created ≡ held_where t d +ℤ on_key t key delta
    unfolding held_where
    create-Moves key delta d updated created organization_id same e t =
        rw ((laws.create_balances_lem _ updated created e).1, same) (omega int_laws)

    pub apply_to_balance-Moves :
        (key : Key) (delta : ℤ) (d : Db) → Moves key delta d (apply_to_balance w ctx key delta d)
    unfolding apply_to_balance
    apply_to_balance-Moves key delta d =
        let u = laws.update_balances_lem key delta d in
        let updated = (w.update_balances key delta d).1 in
        elim (Bool-cases (ltb 0 (w.update_balances key delta d).0)) [
          | inl e ↦ rw e (
            u.1.0,
            u.1.2,
            u.1.3,
            λ t. held-update key delta d t (ground (arith, laws.one_row key d)),
          )
          | inr e ↦
              let empty : rows_at key (w.balances d) ≡ 0 = ground arith in
              let same = update-none key delta d empty in
              rw e (elim (Option-cases ctx.organization_id) [
                | inl o ↦ rw o tt
                | inr (organization_id, o) ↦ rw o (
                    let row : StockBalance = record {
                      organization_id = organization_id;
                      key = key;
                      quantity = delta;
                    } in
                    elim (Option-cases (w.create_balances (row ∷ []) updated)) [
                      | inl c ↦ absurd (
                          let clash = laws.refused_row row updated c in
                          let rows = ap (rows_at key) same in omega arith)
                      | inr (created, c) ↦
                          let wrote = laws.create_balances_lem (row ∷ []) updated created c in
                          rw c (
                            wrote.0 ∙ u.1.0,
                            wrote.2 ∙ u.1.2,
                            wrote.3 ∙ u.1.3,
                            create-Moves key delta d updated created organization_id same c,
                          )
                    ])
              ])
        ]
