-- ===== src/Sales/Correction.antt =====
-- src/modules/sales/sale-correction.ts: what a correction of a recorded sale does, or why it cannot
-- be done. Ids are numbers, `occurredAt` is in milliseconds; the texts of the refusals are left out.
pub mod Plan
pub mod Payments
pub mod Voided
pub mod Following
pub mod Recorded
use stock_mgt.Prelude.{
  ℕ, Bool, true, false, ◌&&◌, not, Option, none, some, List, [], ◌∷◌, ◌++◌, map, ltb, ◌==◌,
  if◌then◌else◌, opt_eq, is_some,
}
use stock_mgt.Prelude.Int.{ℤ, pos, ◌+ℤ◌, ◌-ℤ◌, ltb_ℤ, leb_ℤ, eqb_ℤ, clip}
use stock_mgt.Prelude.Lists.{mem, find, select, any, sum_ℤ, length}
use stock_mgt.Prelude.Result.{Result, ok, err, Error}
use stock_mgt.Prelude.Sort.{sort}
use stock_mgt.Sales.Pricing.{PricedLine, price_line}

pub record RecordedLine : Type 0 where
  pub id : ℕ
  pub quantity : ℤ
  pub unit_price : ℤ
  pub line_total : ℤ
  pub tax_rate_bps : ℤ
  pub tax_amount : ℤ

pub record PaymentOnSale : Type 0 where
  pub id : ℕ
  pub amount : ℤ
  pub allocated_here : ℤ
  pub allocated_elsewhere : Bool
  pub voided : Bool
  pub occurred_at : ℕ

pub record RecordedSale : Type 0 where
  pub customer_id : Option ℕ
  pub total : ℤ
  pub tax_total : ℤ
  pub lines : List RecordedLine
  pub has_returns : Bool
  pub refunded : ℤ
  pub payments : List PaymentOnSale

pub record LinePrice : Type 0 where
  pub line_id : ℕ
  pub unit_price : ℤ

-- `none` for a customer is "unchanged", `some none` a walk-in; no lines are the empty list.
pub record CorrectionRequest : Type 0 where
  pub customer_id : Option (Option ℕ)
  pub lines : List LinePrice

pub record LinePriceChange : Type 0 where
  pub line : RecordedLine
  pub unit_price : ℤ
  pub line_total : ℤ
  pub tax_amount : ℤ

pub record PaymentFollows : Type 0 where
  pub payment_id : ℕ
  pub amount : ℤ

pub record SaleCorrectionPlan : Type 0 where
  pub customer_changed : Bool
  pub customer_id_after : Option ℕ
  pub line_changes : List LinePriceChange
  pub total_after : ℤ
  pub tax_total_after : ℤ
  pub paid_before : ℤ
  pub paid_after : ℤ
  pub follows : Option PaymentFollows
  pub move_payment_ids : List ℕ

-- A call that plans, refuses with a status, or throws.
pub data Attempt (A : Type 0) : Type 0 where
  planned : A → Attempt A
  refused : (status : ℕ) → Attempt A
  threw : Error → Attempt A

infixl 5 ◌>>=◌ ◌>>◌
unfoldable pub ◌>>=◌ : {A B : Type 0} → Attempt A → (A → Attempt B) → Attempt B
Attempt.planned a >>= f = f a
Attempt.refused status >>= f = Attempt.refused status
Attempt.threw e >>= f = Attempt.threw e

unfoldable pub ◌>>◌ : {B : Type 0} → Attempt (Unit {0}) → Attempt B → Attempt B
unfolding ◌>>=◌
m >> k = m >>= λ _. k

abbrev pub refuse_if : Bool → ℕ → Attempt (Unit {0})
refuse_if true status = Attempt.refused status
refuse_if false status = Attempt.planned tt

-- The change of one line, if its price is another.
unfoldable pub line_change : RecordedLine → LinePrice → Attempt (List LinePriceChange)
line_change line wanted =
    if eqb_ℤ wanted.unit_price line.unit_price
    then Attempt.planned []
    else elim (price_line wanted.unit_price line.quantity line.tax_rate_bps) [
      | err e ↦ Attempt.threw e
      | ok priced ↦ Attempt.planned (
          record {
            line = line;
            unit_price = priced.unit_price;
            line_total = priced.line_total;
            tax_amount = priced.tax_amount;
          }
          ∷ [])
    ]

-- The loop over `request.lines`.
unfoldable pub line_changes :
    List RecordedLine → (seen : List ℕ) → List LinePrice → Attempt (List LinePriceChange)
unfolding line_change ◌>>=◌ ◌>>◌
line_changes lines seen [] = Attempt.planned []
line_changes lines seen (wanted ∷ rest) =
    let later = line_changes lines (wanted.line_id ∷ seen) rest in
    refuse_if (mem wanted.line_id seen) 400
    >> elim (find (λ (row : RecordedLine). row.id == wanted.line_id) lines) [
      | none ↦ Attempt.refused 400
      | some line ↦ line_change line wanted >>= λ change.
          later >>= λ changes. Attempt.planned (change ++ changes)
    ]

abbrev pub total_change : List LinePriceChange → ℤ
total_change = sum_ℤ (λ (row : LinePriceChange). row.line_total -ℤ row.line.line_total)

abbrev pub tax_change : List LinePriceChange → ℤ
tax_change = sum_ℤ (λ (row : LinePriceChange). row.tax_amount -ℤ row.line.tax_amount)

abbrev pub live : List PaymentOnSale → List PaymentOnSale
live = select (λ (payment : PaymentOnSale). not payment.voided)

abbrev pub paid : List PaymentOnSale → ℤ
paid = sum_ℤ (λ (row : PaymentOnSale). row.allocated_here)

abbrev pub first : {A : Type 0} → List A → Option A
first [] = none
first (a ∷ rest) = some a

abbrev pub is_own : (PaymentOnSale → Bool) → PaymentOnSale → Bool
is_own enough payment =
    not payment.allocated_elsewhere && ltb_ℤ (pos 0) payment.amount && enough payment

-- `latestOwn`
unfoldable pub latest_own : List PaymentOnSale → (PaymentOnSale → Bool) → Option PaymentOnSale
unfolding sort
latest_own payments enough = first (
    sort (λ (a b : PaymentOnSale). ltb b.occurred_at a.occurred_at)
      (select (is_own enough) payments))

-- The payment follows a lower total.
unfoldable pub follow_down :
    (paid_before total_after : ℤ) → List PaymentOnSale → Attempt (Option PaymentFollows)
unfolding latest_own
follow_down paid_before total_after payments =
    let excess = paid_before -ℤ total_after in
    if ltb_ℤ (pos 0) excess
    then elim (latest_own payments
        (λ (payment : PaymentOnSale). leb_ℤ excess payment.allocated_here)) [
          | none ↦ Attempt.refused 409
          | some candidate ↦
              Attempt.planned
                (some (record { payment_id = candidate.id; amount = candidate.amount -ℤ excess }))
        ]
    else Attempt.planned none

pub record Settled : Type 0 where
  pub follows : Option PaymentFollows
  pub paid_after : ℤ

abbrev pub paid_down : (paid_before total_after : ℤ) → ℤ
paid_down paid_before total_after = paid_before -ℤ clip (paid_before -ℤ total_after)

abbrev pub is_raised : (total paid_before refunded shortfall : ℤ) → Bool
is_raised total paid_before refunded shortfall =
    leb_ℤ (total -ℤ paid_before -ℤ refunded) (pos 0)
    && ltb_ℤ (pos 0) paid_before
    && ltb_ℤ (pos 0) shortfall

-- `raised`: the payment to raise, on a sale paid in full that would be no longer.
unfoldable pub raised_payment : RecordedSale → (paid_before shortfall : ℤ) → Option PaymentOnSale
unfolding latest_own
raised_payment sale paid_before shortfall =
    if is_raised sale.total paid_before sale.refunded shortfall
    then latest_own (live sale.payments) (λ payment. true)
    else none

abbrev pub settle :
    Option PaymentFollows → (paid_after shortfall : ℤ) → Option PaymentOnSale → Settled
settle follows paid_after shortfall none = record { follows = follows; paid_after = paid_after }
settle follows paid_after shortfall (some raised) = record {
  follows = some (record { payment_id = raised.id; amount = raised.amount +ℤ shortfall });
  paid_after = paid_after +ℤ shortfall;
}

-- The payment follows a higher total, on a sale paid in full.
unfoldable pub follow_up :
    RecordedSale → (paid_before total_after : ℤ) → Option PaymentFollows → Settled
follow_up sale paid_before total_after follows =
    let paid_after = paid_down paid_before total_after in
    let shortfall = total_after -ℤ paid_after -ℤ sale.refunded in
    settle follows paid_after shortfall (raised_payment sale paid_before shortfall)

-- The payments that move with the sale to another customer.
unfoldable pub moved_payments : Bool → List PaymentOnSale → Attempt (List ℕ)
moved_payments customer_changed payments =
    if customer_changed
    then elim (find (λ (payment : PaymentOnSale). payment.allocated_elsewhere) (live payments)) [
      | some shared ↦ Attempt.refused 409
      | none ↦ Attempt.planned (
          map (λ (payment : PaymentOnSale). payment.id)
            (select (λ (payment : PaymentOnSale). not payment.allocated_elsewhere) payments))
    ]
    else Attempt.planned []

abbrev pub customer_after : RecordedSale → CorrectionRequest → Option ℕ
customer_after sale request = elim request.customer_id [ none ↦ sale.customer_id | some id ↦ id ]

abbrev pub changed_customer : RecordedSale → CorrectionRequest → Bool
changed_customer sale request = not (opt_eq (customer_after sale request) sale.customer_id)

-- The plan that is returned.
abbrev pub plan_with :
    RecordedSale
    → CorrectionRequest
    → List LinePriceChange
    → Option PaymentFollows
    → List ℕ
    → SaleCorrectionPlan
plan_with sale request changes follows move_payment_ids =
    let total_after = sale.total +ℤ total_change changes in
    let settled = follow_up sale (paid (live sale.payments)) total_after follows in
    record {
      customer_changed = changed_customer sale request;
      customer_id_after = customer_after sale request;
      line_changes = changes;
      total_after = total_after;
      tax_total_after = sale.tax_total +ℤ tax_change changes;
      paid_before = paid (live sale.payments);
      paid_after = settled.paid_after;
      follows = settled.follows;
      move_payment_ids = move_payment_ids;
    }

-- A walk-in cannot owe.
abbrev pub walk_in_owes :
    RecordedSale → CorrectionRequest → List LinePriceChange → Option PaymentFollows → Bool
walk_in_owes sale request changes follows =
    let plan = plan_with sale request changes follows [] in
    not (is_some plan.customer_id_after)
    && ltb_ℤ (pos 0) (plan.total_after -ℤ plan.paid_after -ℤ sale.refunded)

unfoldable pub plan_sale_correction : RecordedSale → CorrectionRequest → Attempt SaleCorrectionPlan
unfolding line_changes follow_down follow_up moved_payments ◌>>=◌ ◌>>◌
plan_sale_correction sale request = do
  changes ← line_changes sale.lines [] request.lines
  refuse_if ((length changes == 0) && not (changed_customer sale request)) 400
  refuse_if (not (length changes == 0) && sale.has_returns) 409
  follows ←
      follow_down (paid (live sale.payments)) (sale.total +ℤ total_change changes)
        (live sale.payments)
  refuse_if (walk_in_owes sale request changes follows) 409
  move_payment_ids ← moved_payments (changed_customer sale request) sale.payments
  Attempt.planned (plan_with sale request changes follows move_payment_ids)
