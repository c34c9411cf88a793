-- ===== src/Payments/Allocation.antt =====
-- src/modules/payments/allocation.ts: one payment split across the invoices that it settles. Amounts
-- are whole kobo, signed; the texts of the refusals are left out, and an invoice's number with them.
pub mod Plan
pub mod Rows
pub mod Oldest
use stock_mgt.Prelude.{
  ℕ, Bool, true, false, ◌||◌, not, Option, none, some, List, [], ◌∷◌, min, ltb, ◌==◌, if◌then◌else◌,
}
use stock_mgt.Prelude.Int.{ℤ, pos, ◌+ℤ◌, ◌-ℤ◌, eqb_ℤ, abs, same_sign, with_sign}
use stock_mgt.Prelude.Lists.{mem}
use stock_mgt.Prelude.Result.{Result, ok, err, Error, throw_if, ◌>>=◌, ◌>>◌}

pub record Outstanding : Type 0 where
  pub sale_id : ℕ
  pub balance : ℤ

pub record AllocationRequest : Type 0 where
  pub sale_id : ℕ
  pub amount : ℤ

pub record PlannedAllocations : Type 0 where
  pub allocations : List AllocationRequest
  pub unallocated : ℤ

-- `new Map(outstanding.map((row) => [row.saleId, row])).get(saleId)`: a later row replaces an earlier
-- one.
abbrev pub by_id : ℕ → List Outstanding → Option Outstanding
by_id sale_id [] = none
by_id sale_id (row ∷ rows) = elim (by_id sale_id rows) [
  | some later ↦ some later
  | none ↦ if row.sale_id == sale_id then some row else none
]

-- The checks of one request against the invoice that was found for it.
unfoldable pub check_request :
    (payment_amount : ℤ) (seen : List ℕ)
    → AllocationRequest
    → Option Outstanding
    → Result (Unit {0})
check_request payment_amount seen request found =
    throw_if (eqb_ℤ request.amount (pos 0)) Error.range
    >> throw_if (not (same_sign request.amount payment_amount)) Error.range
    >> throw_if (mem request.sale_id seen) Error.range
    >> elim found [
      | none ↦ err Error.range
      | some invoice ↦
          throw_if
            (ltb (abs invoice.balance) (abs request.amount)
              || not (same_sign invoice.balance request.amount))
            Error.range
    ]

-- The loop of `planAllocations`: what is claimed in all.
unfoldable pub plan_loop :
    (payment_amount : ℤ)
    → List Outstanding
    → (seen : List ℕ) → (claimed : ℤ) → List AllocationRequest
    → Result ℤ
unfolding check_request
plan_loop payment_amount outstanding seen claimed [] = ok claimed
plan_loop payment_amount outstanding seen claimed (request ∷ requested) =
    let rest =
      plan_loop payment_amount outstanding (request.sale_id ∷ seen) (claimed +ℤ request.amount)
        requested in
    check_request payment_amount seen request (by_id request.sale_id outstanding) >>= λ _. rest

unfoldable pub plan_allocations :
    ℤ → List AllocationRequest → List Outstanding → Result PlannedAllocations
unfolding plan_loop
plan_allocations payment_amount requested outstanding =
    throw_if (eqb_ℤ payment_amount (pos 0)) Error.range
    >> (plan_loop payment_amount outstanding [] (pos 0) requested >>= λ claimed.
        throw_if (ltb (abs payment_amount) (abs claimed)) Error.range
        >> ok (record { allocations = requested; unallocated = payment_amount -ℤ claimed }))

unfoldable pub allocate_oldest : (remaining : ℤ) → List Outstanding → List AllocationRequest
allocate_oldest remaining [] = []
allocate_oldest remaining (invoice ∷ outstanding) =
    let skipped = allocate_oldest remaining outstanding in
    let take = with_sign remaining (min (abs invoice.balance) (abs remaining)) in
    let rest = allocate_oldest (remaining -ℤ take) outstanding in
    if eqb_ℤ remaining (pos 0)
    then []
    else if not (same_sign invoice.balance remaining)
    then skipped
    else record { sale_id = invoice.sale_id; amount = take } ∷ rest
