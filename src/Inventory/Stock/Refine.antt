-- ===== src/Inventory/Stock/Refine.antt =====
-- The stock engine seen from the shop floor: how much of each product and option is at each place,
-- whatever the lots, movements and balances. An `Order` is what a request asks for, and `carried_out`
-- what it makes of the shop.
pub mod Gather
pub mod Steps
use stock_mgt.Prelude.{
  ℕ, ◌≡◌, refl, ◌∙◌, ap, sym, Bool, true, false, ◌&&◌, Option, none, some, List, [], ◌∷◌, map,
  arith, ◌==◌, opt_eq, if◌then◌else◌, inl, inr, Bool-cases, opt_eq→eq, opt_eq_refl, Option-cases,
}
use stock_mgt.Prelude.Int.{
  ℤ, pos, neg, ◌+ℤ◌, ◌-ℤ◌, ◌≤ℤ◌, int_laws, eqb_ℤ→eq, +ℤ-zero, zero-+ℤ, +ℤ_assoc,
}
use stock_mgt.Prelude.Lists.{sum_ℤ, select, All}
use stock_mgt.Inventory.Stock.Tables.{Key, StockBalance}
use stock_mgt.Inventory.Stock.Ledger.{Test, on_key, balances_at}
use stock_mgt.Inventory.Stock.Options.{is_optionless, with_option}
use stock_mgt.Inventory.Stock.Options.Effect.{shifted}
use stock_mgt.Inventory.Stock.OnHand.{Place, place_eq, at, at_place}

-- How much is where.
abbrev pub Shop : Type 0
Shop = Place → ℤ

abbrev pub optionless : Place → Place
optionless p = record p { variant_id = none }

-- A product's stock without an option is put into one of its options, at every place.
abbrev pub gather : ℕ → ℕ → Shop → Place → Option ℕ → ℤ
gather product_id variant_id shop p none = pos 0
gather product_id variant_id shop p (some id) =
    if id == variant_id then shop p +ℤ shop (optionless p) else shop p

abbrev pub gathered : ℕ → ℕ → Shop → Shop
gathered product_id variant_id shop p =
    if p.product_id == product_id then gather product_id variant_id shop p p.variant_id else shop p

-- What comes to a place with a list of arrivals.
abbrev pub arrivals_at : Place → List (Place × ℤ) → ℤ
arrivals_at p = sum_ℤ (λ (a : Place × ℤ). at p a.0 a.1)

-- What one request asks of the shop.
pub data Order : Type 0 where
  put : (here : Place) (q : ℤ) → Order
  take : (here : Place) (q : ℤ) → Order
  deliver : (arrivals : List (Place × ℤ)) → Order
  adjust_by : (here : Place) (q : ℤ) → Order
  carry : (from to : Place) (q : ℤ) → Order
  put_into_option : (product_id variant_id : ℕ) → Order

-- What carrying an order out makes of the shop.
abbrev pub carried_out : Order → Shop → Shop
carried_out (Order.put here q) shop p = shop p +ℤ at p here q
carried_out (Order.take here q) shop p = shop p +ℤ at p here (neg q)
carried_out (Order.deliver arrivals) shop p = shop p +ℤ arrivals_at p arrivals
carried_out (Order.adjust_by here q) shop p = shop p +ℤ at p here q
carried_out (Order.carry from to q) shop p = shop p +ℤ (at p from (neg q) +ℤ at p to q)
carried_out (Order.put_into_option product_id variant_id) shop p =
    gathered product_id variant_id shop p

-- No order but an adjustment is for less than one.
abbrev pub IsPositive : Order → Type 0
IsPositive (Order.put here q) = pos 1 ≤ℤ q
IsPositive (Order.take here q) = pos 1 ≤ℤ q
IsPositive (Order.deliver arrivals) = All (λ (a : Place × ℤ). pos 1 ≤ℤ a.1) arrivals
IsPositive (Order.adjust_by here q) = Unit
IsPositive (Order.carry from to q) = pos 1 ≤ℤ q
IsPositive (Order.put_into_option product_id variant_id) = Unit
