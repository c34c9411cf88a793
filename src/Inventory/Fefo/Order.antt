-- ===== src/Inventory/Fefo/Order.antt =====
-- The order of `sortFefo`.
use mathlib.Core.List.{Perm}
use stock_mgt.Prelude.{
  ℕ, ◌≤◌, ◌<◌, ◌≡◌, sym, ap, ◌∙◌, Bool-cases, ltb, true, false, some, none, List, [], ◌∷◌, arith,
  inl, inr, opt_eq_refl, Option-cases,
}
use stock_mgt.Prelude.Lists.{All}
use stock_mgt.Prelude.Sort.{IsOrder, IsSorted, sort, sort-perm, sort-IsSorted}
use stock_mgt.Inventory.Fefo.{AllocatableBatch, goes_before, sort_fefo}

before_asym : (a b : AllocatableBatch) → goes_before a b ≡ true → goes_before b a ≡ false
unfolding goes_before
before_asym a b h = ground arith

before_trans :
    (a b c : AllocatableBatch)
    → goes_before b a ≡ false
    → goes_before c b ≡ false
    → goes_before c a ≡ false
unfolding goes_before
before_trans a b c h k = ground arith

pub goes_before-IsOrder : IsOrder goes_before
goes_before-IsOrder = record { asym = before_asym; le_trans = before_trans }

-- Why one batch stands before another: it expires sooner, it alone has a date, or, of the same expiry,
-- it was received sooner or, at the same moment, has no later id.
pub data RightOrder (first later : AllocatableBatch) : Type 0 where
  sooner :
      (x y : ℕ)
      → first.expiry_date ≡ some x
      → later.expiry_date ≡ some y
      → x < y
      → RightOrder first later
  dated : (x : ℕ) → first.expiry_date ≡ some x → later.expiry_date ≡ none → RightOrder first later
  received_sooner :
      first.expiry_date ≡ later.expiry_date
      → first.received_at < later.received_at
      → RightOrder first later
  same_moment :
      first.expiry_date ≡ later.expiry_date
      → first.received_at ≡ later.received_at
      → first.batch_id ≤ later.batch_id
      → RightOrder first later

received-order :
    (a b : AllocatableBatch)
    → goes_before b a ≡ false
    → a.expiry_date ≡ b.expiry_date
    → RightOrder a b
unfolding goes_before
received-order a b h e =
    let same = opt_eq_refl a.expiry_date in
    elim (Bool-cases (ltb a.received_at b.received_at)) [
      | inl s ↦ RightOrder.received_sooner e (ground arith)
      | inr s ↦ RightOrder.same_moment e (ground (arith, same)) (ground (arith, same))
    ]

RightOrder-of_not_before : (a b : AllocatableBatch) → goes_before b a ≡ false → RightOrder a b
unfolding goes_before
RightOrder-of_not_before a b h = elim (Option-cases a.expiry_date) [
  | inl undated ↦ elim (Option-cases b.expiry_date) [
    | inl undated' ↦ received-order a b h (undated ∙ sym undated')
    | inr (y, at_y) ↦ ground arith
  ]
  | inr (x, at_x) ↦ elim (Option-cases b.expiry_date) [
    | inl undated' ↦ RightOrder.dated x at_x undated'
    | inr (y, at_y) ↦ elim (Bool-cases (ltb x y)) [
      | inl s ↦ RightOrder.sooner x y at_x at_y (ground arith)
      | inr s ↦
          let same : x ≡ y = ground arith in received-order a b h (at_x ∙ (ap some same ∙ sym at_y))
    ]
  ]
]

abbrev pub Ordered : List AllocatableBatch → Type 0
Ordered [] = Unit
Ordered (b ∷ bs) = All (RightOrder b) bs × Ordered bs

All-RightOrder :
    (a : AllocatableBatch) (bs : List AllocatableBatch)
    → All (λ b. goes_before b a ≡ false) bs
    → All (RightOrder a) bs
All-RightOrder a [] h = tt
All-RightOrder a (b ∷ bs) (p, h) = (RightOrder-of_not_before a b p, All-RightOrder a bs h)

Ordered-of_sorted : (bs : List AllocatableBatch) → IsSorted goes_before bs → Ordered bs
Ordered-of_sorted [] h = tt
Ordered-of_sorted (b ∷ bs) (p, h) = (All-RightOrder b bs p, Ordered-of_sorted bs h)

-- `sortFefo` rearranges the batches and loses none; every batch stands in the right order to every
-- later one: dated before undated, earlier expiry first, then
-- earlier receipt, then the lesser id.
pub sort_fefo-Ordered :
    (bs : List AllocatableBatch) → Perm (sort_fefo bs) bs × Ordered (sort_fefo bs)
unfolding sort_fefo
sort_fefo-Ordered bs = (
  sort-perm goes_before bs,
  Ordered-of_sorted (sort goes_before bs) (sort-IsSorted goes_before goes_before-IsOrder bs),
)
