-- ===== src/Payments/Allocation/Plan.antt =====
-- What `planAllocations` of src/modules/payments/allocation.ts accepts.
use stock_mgt.Prelude.{
  ℕ, ◌≤◌, ◌≡◌, refl, sym, ap, ◌∙◌, true, false, Option, none, some, List, [], ◌∷◌, ltb, arith,
  Bool-cases, inl, inr,
}
use stock_mgt.Prelude.Int.{
  ℤ, pos, ◌+ℤ◌, ◌-ℤ◌, eqb_ℤ, abs, pos_part, neg_part, same_sign, int_laws, +ℤ_assoc, zero-+ℤ,
  +ℤ-zero,
}
use stock_mgt.Prelude.Lists.{mem, All, sum_ℤ}
use stock_mgt.Prelude.Result.{Result, ok, err, Error, throw_if, ◌>>◌, >>=-eq-ok}
use stock_mgt.Payments.Allocation.{
  Outstanding, AllocationRequest, PlannedAllocations, by_id, check_request, plan_loop,
  plan_allocations,
}

-- A request that may stand: it names an invoice, runs the way of the payment and of the balance, and
-- takes no more than the balance.
abbrev pub Covered : ℤ → List Outstanding → AllocationRequest → Type 0
Covered payment_amount outstanding request =
    (invoice : Outstanding) × (by_id request.sale_id outstanding ≡ some invoice)
    × (same_sign request.amount payment_amount ≡ true)
    × (same_sign invoice.balance request.amount ≡ true)
    × (abs request.amount ≤ abs invoice.balance)
    × (eqb_ℤ request.amount (pos 0) ≡ false)

-- No sale is named twice, nor one of `seen`.
abbrev pub Apart : List ℕ → List AllocationRequest → Type 0
Apart seen [] = Unit
Apart seen (request ∷ requested) =
    (mem request.sale_id seen ≡ false) × Apart (request.sale_id ∷ seen) requested

abbrev pub claimed_by : List AllocationRequest → ℤ
claimed_by = sum_ℤ (λ (request : AllocationRequest). request.amount)

check_request_lem :
    (payment_amount : ℤ) (seen : List ℕ) (request : AllocationRequest) (found : Option Outstanding)
    → check_request payment_amount seen request found ≡ ok tt
    → ((invoice : Outstanding) × (found ≡ some invoice)
        × (same_sign request.amount payment_amount ≡ true)
        × (same_sign invoice.balance request.amount ≡ true)
        × (abs request.amount ≤ abs invoice.balance)
        × (eqb_ℤ request.amount (pos 0) ≡ false))
      × (mem request.sale_id seen ≡ false)
unfolding check_request
check_request_lem payment_amount seen request none h = ground arith
check_request_lem payment_amount seen request (some invoice) h =
    ((invoice, refl, ground arith, ground arith, ground arith, ground arith), ground arith)

-- A loop that returns has claimed the amounts of all requests, and each may stand.
pub plan_loop_lem :
    (payment_amount : ℤ) (outstanding : List Outstanding) (seen : List ℕ) (claimed : ℤ)
    (requested : List AllocationRequest) {total : ℤ}
    → plan_loop payment_amount outstanding seen claimed requested ≡ ok total
    → (total ≡ claimed +ℤ claimed_by requested)
      × All (Covered payment_amount outstanding) requested
      × Apart seen requested
unfolding plan_loop
plan_loop_lem payment_amount outstanding seen claimed [] {total} h =
    let same : total ≡ claimed = cc in (same ∙ sym (+ℤ-zero claimed), tt, tt)
plan_loop_lem payment_amount outstanding seen claimed (request ∷ requested) h =
    let (_, checked, h') =
      >>=-eq-ok (check_request payment_amount seen request (by_id request.sale_id outstanding)) _
        h in
    let (covered, fresh) = check_request_lem payment_amount seen request _ checked in
    let (total, all, apart) =
      plan_loop_lem payment_amount outstanding (request.sale_id ∷ seen) (claimed +ℤ request.amount)
        requested h' in
    (total ∙ +ℤ_assoc _ _ _, (covered, all), (fresh, apart))

-- The end of `planAllocations`.
abbrev planned : (payment_amount claimed : ℤ) → List AllocationRequest → Result PlannedAllocations
planned payment_amount claimed requested =
    throw_if (ltb (abs payment_amount) (abs claimed)) Error.range
    >> ok (record { allocations = requested; unallocated = payment_amount -ℤ claimed })

plan_end :
    (payment_amount claimed : ℤ) (requested : List AllocationRequest) {plan : PlannedAllocations}
    → planned payment_amount claimed requested ≡ ok plan
    → (abs claimed ≤ abs payment_amount)
      × (plan.allocations ≡ requested)
      × (claimed +ℤ plan.unallocated ≡ payment_amount)
plan_end payment_amount claimed requested {plan} h =
    elim (Bool-cases (ltb (abs payment_amount) (abs claimed))) [
      | inl e ↦ let h' : err Error.range ≡ ok plan = simp e at h in cc
      | inr e ↦
          let left : plan.unallocated ≡ payment_amount -ℤ claimed = ground arith in
          (ground arith, ground arith, omega (int_laws, ap pos_part left, ap neg_part left))
    ]

-- An accepted split is the one that was asked for: no sale is named twice, each request is covered by
-- its invoice, the amounts and what is left over make up the payment, and they claim no more than it.
pub plan_allocations_sound :
    (payment_amount : ℤ) (requested : List AllocationRequest) (outstanding : List Outstanding)
    {plan : PlannedAllocations}
    → plan_allocations payment_amount requested outstanding ≡ ok plan
    → (plan.allocations ≡ requested)
      × (claimed_by requested +ℤ plan.unallocated ≡ payment_amount)
      × (abs (claimed_by requested) ≤ abs payment_amount)
      × All (Covered payment_amount outstanding) requested
      × Apart [] requested
unfolding plan_allocations
plan_allocations_sound payment_amount requested outstanding {plan} h =
    let (_, _, h1) = >>=-eq-ok (throw_if (eqb_ℤ payment_amount (pos 0)) Error.range) _ h in
    let (claimed, looped, h2) =
      >>=-eq-ok (plan_loop payment_amount outstanding [] (pos 0) requested) _ h1 in
    let (fits, same, left) = plan_end payment_amount claimed requested h2 in
    let (total, all, apart) =
      plan_loop_lem payment_amount outstanding [] (pos 0) requested looped in
    let sum : claimed_by requested ≡ claimed = sym (total ∙ zero-+ℤ (claimed_by requested)) in
    (same, rw sum left, rw sum fits, all, apart)
