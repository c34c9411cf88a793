-- ===== src/Payments/Allocation/Oldest.antt =====
-- `allocateOldest` of src/modules/payments/allocation.ts: what it makes, `planAllocations` accepts.
use stock_mgt.Prelude.{
  ℕ, ◌+◌, ◌-◌, ◌≤◌, ◌≡◌, ◌≢◌, refl, sym, ap, ◌∙◌, true, false, some, List, [], ◌∷◌, min, ltb, ◌==◌,
  arith, Bool-cases, inl, inr,
}
use stock_mgt.Prelude.Int.{ℤ, pos, ◌+ℤ◌, ◌-ℤ◌, eqb_ℤ, eqb_ℤ→eq, abs, same_sign, with_sign, zero-+ℤ}
use stock_mgt.Prelude.Lists.{mem, All}
use stock_mgt.Prelude.Result.{ok}
use stock_mgt.Payments.Allocation.{
  Outstanding, AllocationRequest, PlannedAllocations, by_id, check_request, plan_loop,
  plan_allocations, allocate_oldest,
}
use stock_mgt.Payments.Allocation.Plan.{claimed_by, plan_loop_lem, plan_allocations_sound}
use stock_mgt.Payments.Allocation.Rows.{owed_like, Distinct, All-fresh, by_id-Distinct, fresh-nil}

module _ (p : ℤ) (some_money : eqb_ℤ p (pos 0) ≡ false) where
  abs-with_sign : (n : ℕ) → abs (with_sign p n) ≡ n
  abs-with_sign n = ground arith

  eqb-with_sign : (n : ℕ) → eqb_ℤ (with_sign p n) (pos 0) ≡ (n == 0)
  eqb-with_sign n = ground arith

  same_sign-with_sign :
      (b : ℤ) (n : ℕ) → (n == 0) ≡ false → same_sign b (with_sign p n) ≡ same_sign b p
  same_sign-with_sign b n h = ground arith

  with_sign-with_sign : (n m : ℕ) → (n == 0) ≡ false → with_sign (with_sign p n) m ≡ with_sign p m
  with_sign-with_sign n m h = ground arith

  -ℤ-with_sign : (n m : ℕ) → m ≤ n → with_sign p n -ℤ with_sign p m ≡ with_sign p (n - m)
  unfolding ◌-ℤ◌
  -ℤ-with_sign n m h = ground arith

  +ℤ-with_sign : (n m : ℕ) → with_sign p n +ℤ with_sign p m ≡ with_sign p (n + m)
  unfolding ◌+ℤ◌
  +ℤ-with_sign n m = ground arith

  with_sign-abs : with_sign p (abs p) ≡ p
  with_sign-abs = ground arith

  taken_from : (n : ℕ) → Outstanding → ℕ
  taken_from n row = min (abs row.balance) n

  oldest-none : (outs : List Outstanding) → allocate_oldest (with_sign p 0) outs ≡ []
  unfolding allocate_oldest
  oldest-none [] = refl
  oldest-none (row ∷ rows) = rw (eqb-with_sign 0) refl

  oldest-empty : (n : ℕ) → allocate_oldest (with_sign p n) [] ≡ []
  unfolding allocate_oldest
  oldest-empty n = refl

  oldest-nil : (n : ℕ) → claimed_by (allocate_oldest (with_sign p n) []) ≡ with_sign p 0
  oldest-nil n = rw (oldest-empty n) (ground arith)

  zero_size : pos 0 ≡ with_sign p 0
  zero_size = ground arith

  same_size : (m n : ℕ) → m ≡ n → with_sign p m ≡ with_sign p n
  same_size m n e = ap (with_sign p) e

  oldest-skip :
      (n : ℕ) (row : Outstanding) (rows : List Outstanding)
      → (n == 0) ≡ false
      → same_sign row.balance p ≡ false
      → allocate_oldest (with_sign p n) (row ∷ rows) ≡ allocate_oldest (with_sign p n) rows
  unfolding allocate_oldest
  oldest-skip n row rows h e = rw (eqb-with_sign n, h, same_sign-with_sign row.balance n h, e) refl

  oldest-take :
      (n : ℕ) (row : Outstanding) (rows : List Outstanding)
      → (n == 0) ≡ false
      → same_sign row.balance p ≡ true
      → allocate_oldest (with_sign p n) (row ∷ rows)
        ≡ record { sale_id = row.sale_id; amount = with_sign p (taken_from n row) }
          ∷ allocate_oldest (with_sign p (n - taken_from n row)) rows
  unfolding allocate_oldest taken_from
  oldest-take n row rows h e =
      rw
        (
          eqb-with_sign n,
          h,
          same_sign-with_sign row.balance n h,
          e,
          abs-with_sign n,
          with_sign-with_sign n (min (abs row.balance) n) h,
          -ℤ-with_sign n (min (abs row.balance) n) (omega arith),
        )
        refl

  check_request-passes :
      (seen : List ℕ) (n : ℕ) (row : Outstanding)
      → mem row.sale_id seen ≡ false
      → same_sign row.balance p ≡ true
      → (n == 0) ≡ false
      → check_request p seen
          (record { sale_id = row.sale_id; amount = with_sign p (taken_from n row) })
          (some row)
        ≡ ok tt
  unfolding check_request taken_from
  check_request-passes seen n row g s e = ground arith

  -- The oldest first, as far as the payment reaches.
  claimed-oldest :
      (n : ℕ) (outs : List Outstanding)
      → claimed_by (allocate_oldest (with_sign p n) outs) ≡ with_sign p (min n (owed_like p outs))
  unfolding taken_from
  claimed-oldest n [] = oldest-nil n ∙ same_size 0 (min n 0) (omega arith)
  claimed-oldest n (row ∷ rows) = elim (Bool-cases (n == 0)) [
    | inl e ↦
        let zero : n ≡ 0 = ground arith in
        rw (zero, oldest-none (row ∷ rows)) (zero_size ∙ same_size 0 _ (omega arith))
    | inr e ↦ elim (Bool-cases (same_sign row.balance p)) [
      | inl s ↦
          let m = min (abs row.balance) n in
          rw (oldest-take n row rows e s, s, claimed-oldest (n - m) rows, +ℤ-with_sign m _)
            (ap (with_sign p) (omega arith))
      | inr s ↦
          rw (oldest-skip n row rows e s, claimed-oldest n rows, s) (ap (with_sign p) (omega arith))
    ]
  ]

  accepted_loop :
      (all : List Outstanding) (n : ℕ) (outs : List Outstanding) (seen : List ℕ) (claimed : ℤ)
      → All (λ (row : Outstanding). by_id row.sale_id all ≡ some row) outs
      → All (λ (row : Outstanding). mem row.sale_id seen ≡ false) outs
      → Distinct outs
      → (total : ℤ) × (plan_loop p all seen claimed (allocate_oldest (with_sign p n) outs)
          ≡ ok total)
  unfolding plan_loop
  accepted_loop all n [] seen claimed found fresh apart = rw (oldest-empty n) (claimed, refl)
  accepted_loop all n (row ∷ rows) seen claimed (f, found) (g, fresh) (a, apart) =
      elim (Bool-cases (n == 0)) [
        | inl e ↦
            let zero : n ≡ 0 = ground arith in rw (zero, oldest-none (row ∷ rows)) (claimed, refl)
        | inr e ↦ elim (Bool-cases (same_sign row.balance p)) [
          | inl s ↦
              rw (oldest-take n row rows e s, f, check_request-passes seen n row g s e)
                (accepted_loop all (n - taken_from n row) rows (row.sale_id ∷ seen) _ found
                  (All-fresh row seen rows a fresh) apart)
          | inr s ↦
              rw (oldest-skip n row rows e s)
                (accepted_loop all n rows seen claimed found fresh apart)
        ]
      ]

not_zero : (p : ℤ) → p ≢ pos 0 → eqb_ℤ p (pos 0) ≡ false
not_zero p h = elim (Bool-cases (eqb_ℤ p (pos 0))) [
  | inl e ↦ elim (h (eqb_ℤ→eq p (pos 0) e)) [ ]
  | inr e ↦ e
]

plan_allocations-of_loop :
    (p total : ℤ) (requested : List AllocationRequest) (outs : List Outstanding)
    → eqb_ℤ p (pos 0) ≡ false
    → plan_loop p outs [] (pos 0) requested ≡ ok total
    → abs total ≤ abs p
    → plan_allocations p requested outs
      ≡ ok (record { allocations = requested; unallocated = p -ℤ total })
unfolding plan_allocations
plan_allocations-of_loop p total requested outs money looped fits =
    let few : ltb (abs p) (abs total) ≡ false = ground arith in rw (money, looped, few) refl

oldest-claimed :
    (p : ℤ) (outs : List Outstanding)
    → eqb_ℤ p (pos 0) ≡ false
    → claimed_by (allocate_oldest p outs) ≡ with_sign p (min (abs p) (owed_like p outs))
oldest-claimed p outs money =
    ap (λ q. claimed_by (allocate_oldest q outs)) (sym (with_sign-abs p money))
    ∙ claimed-oldest p money (abs p) outs

oldest-looped :
    (p : ℤ) (outs : List Outstanding)
    → eqb_ℤ p (pos 0) ≡ false
    → Distinct outs
    → (total : ℤ) × (plan_loop p outs [] (pos 0) (allocate_oldest p outs) ≡ ok total)
      × (abs total ≤ abs p)
oldest-looped p outs money apart =
    let (total, looped) =
      accepted_loop p money outs (abs p) outs [] (pos 0) (by_id-Distinct outs apart)
        (fresh-nil outs) apart in
    let looped' =
      ap (λ q. plan_loop p outs [] (pos 0) (allocate_oldest q outs)) (sym (with_sign-abs p money))
      ∙ looped in
    let sum = (plan_loop_lem p outs [] (pos 0) (allocate_oldest p outs) looped').0 in
    let size = abs-with_sign p money (min (abs p) (owed_like p outs)) in
    (total, looped', rw (sum, zero-+ℤ, oldest-claimed p outs money) (omega (arith, size)))

-- A payment of some money, split by `allocateOldest` over distinct invoices, is accepted by
-- `planAllocations` with no exception; it claims the whole payment or all that is owed in its
-- direction, whichever is less.
pub allocate_oldest-accepted :
    (p : ℤ) (outs : List Outstanding)
    → p ≢ pos 0
    → Distinct outs
    → (plan : PlannedAllocations) × (plan_allocations p (allocate_oldest p outs) outs ≡ ok plan)
      × (plan.allocations ≡ allocate_oldest p outs)
      × (claimed_by plan.allocations ≡ with_sign p (min (abs p) (owed_like p outs)))
      × (claimed_by plan.allocations +ℤ plan.unallocated ≡ p)
allocate_oldest-accepted p outs h apart =
    let money = not_zero p h in
    let (total, looped, fits) = oldest-looped p outs money apart in
    let runs = plan_allocations-of_loop p total (allocate_oldest p outs) outs money looped fits in
    let checked = plan_allocations_sound p (allocate_oldest p outs) outs runs in
    (_, runs, refl, oldest-claimed p outs money, checked.1)
