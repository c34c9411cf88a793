-- ===== src/Inventory/Stock/Refine/Gather.antt =====
-- What `moveIntoVariant` of src/modules/inventory/stock.service.ts does to what is on hand at a place.
use stock_mgt.Prelude.{
  ℕ, ◌≡◌, refl, ◌∙◌, ap, true, false, Option, none, some, List, [], ◌∷◌, arith, ◌==◌, if◌then◌else◌,
  inl, inr, Bool-cases, opt_eq→eq, ==_iff,
}
use stock_mgt.Prelude.Int.{ℤ, pos, neg, ◌+ℤ◌, int_laws, eqb_ℤ→eq, +ℤ-zero, zero-+ℤ}
use stock_mgt.Prelude.Lists.{sum_ℤ, select}
use stock_mgt.Inventory.Stock.Tables.{StockBalance}
use stock_mgt.Inventory.Stock.Ledger.{on_key, balances_at}
use stock_mgt.Inventory.Stock.Options.{is_optionless, with_option}
use stock_mgt.Inventory.Stock.Options.Effect.{shifted}
use stock_mgt.Inventory.Stock.Refine.{optionless, gather, gathered}
use stock_mgt.Inventory.Stock.OnHand.{Place, place_eq, at_place}

-- What a balance that may move changes at a place.
abbrev gained_from : ℕ → ℕ → Place → Option ℕ → StockBalance → ℤ
gained_from product_id variant_id p none b = neg (on_key (at_place p) b.key b.quantity)
gained_from product_id variant_id p (some id) b =
    if id == variant_id then on_key (at_place (optionless p)) b.key b.quantity else pos 0

moved_from : ℕ → Place → StockBalance → ℤ
moved_from variant_id p b =
    on_key (at_place p) (with_option none b.key) (neg b.quantity)
    +ℤ on_key (at_place p) (with_option (some variant_id) b.key) b.quantity

-- A balance that may move has no option.
optionless_key :
    (product_id : ℕ) (b : StockBalance)
    → is_optionless product_id b ≡ true
    → (b.key.product_id ≡ product_id) × (b.key.variant_id ≡ none)
optionless_key product_id b h = ground (arith, opt_eq→eq b.key.variant_id none)

out_part :
    (product_id : ℕ) (p : Place) (b : StockBalance)
    → is_optionless product_id b ≡ true
    → on_key (at_place p) (with_option none b.key) (neg b.quantity)
      ≡ neg (on_key (at_place p) b.key b.quantity)
out_part product_id p b h =
    rw ((optionless_key product_id b h).1)
      (elim (Bool-cases (
        place_eq p (record {
          product_id = b.key.product_id;
          variant_id = none;
          location_id = b.key.location_id;
        }))) [ inl e ↦ rw e | inr e ↦ rw e (omega int_laws) ])

in_part :
    (product_id variant_id id : ℕ) (p : Place) (b : StockBalance)
    → is_optionless product_id b ≡ true
    → p.variant_id ≡ some id
    → on_key (at_place p) (with_option (some variant_id) b.key) b.quantity
      ≡ (if id == variant_id then on_key (at_place (optionless p)) b.key b.quantity else pos 0)
in_part product_id variant_id id p b h e =
    rw ((optionless_key product_id b h).1, e)
      (elim (Bool-cases (id == variant_id)) [ inl k ↦ rw k | inr k ↦ rw k (ground arith) ])

in_part_none :
    (variant_id : ℕ) (p : Place) (b : StockBalance)
    → p.variant_id ≡ none
    → on_key (at_place p) (with_option (some variant_id) b.key) b.quantity ≡ pos 0
in_part_none variant_id p b e = rw e (ground arith)

out_part_some :
    (id : ℕ) (p : Place) (b : StockBalance)
    → p.variant_id ≡ some id
    → on_key (at_place p) (with_option none b.key) (neg b.quantity) ≡ pos 0
out_part_some id p b e = rw e (ground arith)

unmoved_place :
    (product_id : ℕ) (p : Place) (b : StockBalance)
    → p.product_id ≡ product_id
    → p.variant_id ≡ none
    → is_optionless product_id b ≡ false
    → on_key (at_place p) b.key b.quantity ≡ pos 0
unmoved_place product_id p b same e h = elim (Bool-cases (at_place p b.key)) [
  | inr k ↦ rw k
  | inl k ↦
      rw k (ground (arith, eqb_ℤ→eq b.quantity (pos 0), opt_eq→eq p.variant_id b.key.variant_id))
]

moves-here :
    (product_id variant_id : ℕ) (p : Place) (b : StockBalance)
    → is_optionless product_id b ≡ true
    → (o : Option ℕ) → p.variant_id ≡ o
    → moved_from variant_id p b ≡ gained_from product_id variant_id p o b
unfolding moved_from
moves-here product_id variant_id p b h none e =
    rw (out_part product_id p b h, in_part_none variant_id p b e) (+ℤ-zero _)
moves-here product_id variant_id p b h (some id) e =
    rw (in_part product_id variant_id id p b h e, out_part_some id p b e) (zero-+ℤ _)

-- A balance of another product moves nothing here.
moves-elsewhere :
    (product_id variant_id : ℕ) (p : Place) (b : StockBalance)
    → (p.product_id == product_id) ≡ false
    → is_optionless product_id b ≡ true
    → moved_from variant_id p b ≡ pos 0
unfolding moved_from
moves-elsewhere product_id variant_id p b other h =
    let away : (p.product_id == b.key.product_id) ≡ false =
      ap (λ n. p.product_id == n) (optionless_key product_id b h).0 ∙ other in
    rw away (omega int_laws)

-- A balance that does not move would have gained nothing.
stays-here :
    (product_id variant_id : ℕ) (p : Place) (b : StockBalance)
    → p.product_id ≡ product_id
    → is_optionless product_id b ≡ false
    → (o : Option ℕ) → p.variant_id ≡ o
    → gained_from product_id variant_id p o b ≡ pos 0
stays-here product_id variant_id p b same h none e =
    rw (unmoved_place product_id p b same e h) (omega int_laws)
stays-here product_id variant_id p b same h (some id) e = elim (Bool-cases (id == variant_id)) [
  | inl k ↦ rw (k, unmoved_place product_id (optionless p) b same refl h)
  | inr k ↦ rw k
]

-- What a list of moves comes to at a place.
shifted-place :
    (product_id variant_id : ℕ) (p : Place) (bs : List StockBalance)
    → p.product_id ≡ product_id
    → shifted variant_id (select (is_optionless product_id) bs) (at_place p)
      ≡ sum_ℤ (gained_from product_id variant_id p p.variant_id) bs
unfolding shifted moved_from
shifted-place product_id variant_id p [] same = refl
shifted-place product_id variant_id p (b ∷ bs) same =
    let rest = shifted-place product_id variant_id p bs same in
    elim (Bool-cases (is_optionless product_id b)) [
      | inl e ↦ rw (e, rest, ← moves-here product_id variant_id p b e p.variant_id refl)
      | inr e ↦
          rw (e, rest, stays-here product_id variant_id p b same e p.variant_id refl)
            (omega int_laws)
    ]

shifted-elsewhere :
    (product_id variant_id : ℕ) (p : Place) (bs : List StockBalance)
    → (p.product_id == product_id) ≡ false
    → shifted variant_id (select (is_optionless product_id) bs) (at_place p) ≡ pos 0
unfolding shifted moved_from
shifted-elsewhere product_id variant_id p [] other = refl
shifted-elsewhere product_id variant_id p (b ∷ bs) other =
    let rest = shifted-elsewhere product_id variant_id p bs other in
    elim (Bool-cases (is_optionless product_id b)) [
      | inl e ↦ rw (e, rest, moves-elsewhere product_id variant_id p b other e) (omega int_laws)
      | inr e ↦ rw (e, rest)
    ]

sum-gained_none :
    (product_id variant_id : ℕ) (p : Place) (bs : List StockBalance)
    → sum_ℤ (gained_from product_id variant_id p none) bs ≡ neg (balances_at (at_place p) bs)
sum-gained_none product_id variant_id p [] = omega int_laws
sum-gained_none product_id variant_id p (b ∷ bs) =
    rw (sum-gained_none product_id variant_id p bs) (omega int_laws)

sum-gained_here :
    (product_id variant_id id : ℕ) (p : Place) (bs : List StockBalance)
    → (id == variant_id) ≡ true
    → sum_ℤ (gained_from product_id variant_id p (some id)) bs
      ≡ balances_at (at_place (optionless p)) bs
sum-gained_here product_id variant_id id p [] k = refl
sum-gained_here product_id variant_id id p (b ∷ bs) k =
    rw (k, sum-gained_here product_id variant_id id p bs k)

sum-gained_other :
    (product_id variant_id id : ℕ) (p : Place) (bs : List StockBalance)
    → (id == variant_id) ≡ false
    → sum_ℤ (gained_from product_id variant_id p (some id)) bs ≡ pos 0
sum-gained_other product_id variant_id id p [] k = refl
sum-gained_other product_id variant_id id p (b ∷ bs) k =
    rw (k, sum-gained_other product_id variant_id id p bs k) (omega int_laws)

cancelled_out : (a : ℤ) → a +ℤ neg a ≡ pos 0
cancelled_out a = omega int_laws

sum-gather :
    (product_id variant_id : ℕ) (p : Place) (bs : List StockBalance) (o : Option ℕ)
    → balances_at (at_place p) bs +ℤ sum_ℤ (gained_from product_id variant_id p o) bs
      ≡ gather product_id variant_id (λ q. balances_at (at_place q) bs) p o
sum-gather product_id variant_id p bs none =
    rw (sum-gained_none product_id variant_id p bs) (cancelled_out _)
sum-gather product_id variant_id p bs (some id) = elim (Bool-cases (id == variant_id)) [
  | inl k ↦ rw (k, sum-gained_here product_id variant_id id p bs k)
  | inr k ↦ rw (k, sum-gained_other product_id variant_id id p bs k) (+ℤ-zero _)
]

-- What is on hand, with the moves of a product's balances, is what gathering makes of it.
pub shifted-gathered :
    (product_id variant_id : ℕ) (p : Place) (bs : List StockBalance)
    → balances_at (at_place p) bs
        +ℤ shifted variant_id (select (is_optionless product_id) bs) (at_place p)
      ≡ gathered product_id variant_id (λ q. balances_at (at_place q) bs) p
shifted-gathered product_id variant_id p bs = elim (Bool-cases (p.product_id == product_id)) [
  | inl e ↦
      let same = (==_iff p.product_id product_id).0 e in
      rw (e, shifted-place product_id variant_id p bs same)
        (sum-gather product_id variant_id p bs p.variant_id)
  | inr e ↦ rw (e, shifted-elsewhere product_id variant_id p bs e) (+ℤ-zero _)
]
