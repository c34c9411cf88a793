-- ===== src/Sales/Correction/Payments.antt =====
-- What src/modules/sales/sale-correction.service.ts does to the payments of a sale when a plan has one
-- follow the total: it is voided, and one for the true amount is recorded in its place.
use stock_mgt.Prelude.{
  ℕ, true, false, Option, none, some, List, [], ◌∷◌, ◌++◌, map, ◌==◌, if◌then◌else◌,
}
use stock_mgt.Prelude.Int.{ℤ, pos, ltb_ℤ}
use stock_mgt.Prelude.Lists.{find}
use stock_mgt.Prelude.Result.{Result, ok, err, Error, throw_if, ◌>>◌}
use stock_mgt.Sales.Correction.{PaymentOnSale, PaymentFollows}

abbrev pub void : ℕ → List PaymentOnSale → List PaymentOnSale
void id = map (λ (p : PaymentOnSale). if p.id == id then record p { voided = true } else p)

-- The new payment and its one allocation, to this sale; none for an amount of zero.
abbrev pub replacement : (new_id : ℕ) → PaymentOnSale → (amount : ℤ) → List PaymentOnSale
replacement new_id original amount =
    if ltb_ℤ (pos 0) amount
    then record {
      id = new_id;
      amount = amount;
      allocated_here = amount;
      allocated_elsewhere = false;
      voided = false;
      occurred_at = original.occurred_at;
    }
      ∷ []
    else []

unfoldable pub follow :
    Option PaymentFollows → (new_id : ℕ) → List PaymentOnSale → Result (List PaymentOnSale)
follow none new_id payments = ok payments
follow (some follows) new_id payments =
    elim (find (λ (p : PaymentOnSale). p.id == follows.payment_id) payments) [
      | none ↦ err Error.not_found
      | some original ↦
          throw_if original.voided Error.conflict
          >> ok (replacement new_id original follows.amount ++ void follows.payment_id payments)
    ]
