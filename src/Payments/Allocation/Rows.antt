-- ===== src/Payments/Allocation/Rows.antt =====
-- Invoices with ids of their own, as src/modules/payments/allocation.ts looks them up.
use stock_mgt.Prelude.{
  ℕ, ◌≡◌, refl, false, none, some, List, [], ◌∷◌, ◌==◌, if◌then◌else◌, arith, ==_refl,
}
use stock_mgt.Prelude.Int.{ℤ, abs, same_sign}
use stock_mgt.Prelude.Lists.{mem, All, sum_by}
use stock_mgt.Payments.Allocation.{Outstanding, by_id}

-- What is owed that runs the way of the payment.
abbrev pub owed_like : ℤ → List Outstanding → ℕ
owed_like p = sum_by (λ (row : Outstanding). if same_sign row.balance p then abs row.balance else 0)

abbrev pub Distinct : List Outstanding → Type 0
Distinct [] = Unit
Distinct (row ∷ rows) =
    All (λ (later : Outstanding). (row.sale_id == later.sale_id) ≡ false) rows × Distinct rows

pub All-fresh :
    (row : Outstanding) (seen : List ℕ) (rows : List Outstanding)
    → All (λ (later : Outstanding). (row.sale_id == later.sale_id) ≡ false) rows
    → All (λ (r : Outstanding). mem r.sale_id seen ≡ false) rows
    → All (λ (r : Outstanding). mem r.sale_id (row.sale_id ∷ seen) ≡ false) rows
All-fresh row seen [] h k = tt
All-fresh row seen (r ∷ rows) (a, h) (b, k) = (rw (a, b) refl, All-fresh row seen rows h k)

pub by_id-absent :
    (sale_id : ℕ) (rows : List Outstanding)
    → All (λ (later : Outstanding). (sale_id == later.sale_id) ≡ false) rows
    → by_id sale_id rows ≡ none
by_id-absent sale_id [] h = refl
by_id-absent sale_id (row ∷ rows) (a, h) = ground (arith, by_id-absent sale_id rows h)

pub by_id-later :
    (row : Outstanding) (rows outs : List Outstanding)
    → All (λ (r : Outstanding). by_id r.sale_id rows ≡ some r) outs
    → All (λ (r : Outstanding). by_id r.sale_id (row ∷ rows) ≡ some r) outs
by_id-later row rows [] h = tt
by_id-later row rows (r ∷ outs) (a, h) = (rw a refl, by_id-later row rows outs h)

pub by_id-Distinct :
    (rows : List Outstanding)
    → Distinct rows
    → All (λ (r : Outstanding). by_id r.sale_id rows ≡ some r) rows
by_id-Distinct [] h = tt
by_id-Distinct (row ∷ rows) (a, h) = (
  rw (by_id-absent row.sale_id rows a, ==_refl row.sale_id) refl,
  by_id-later row rows rows (by_id-Distinct rows h),
)

pub fresh-nil : (rows : List Outstanding) → All (λ (r : Outstanding). mem r.sale_id [] ≡ false) rows
fresh-nil [] = tt
fresh-nil (row ∷ rows) = (refl, fresh-nil rows)
