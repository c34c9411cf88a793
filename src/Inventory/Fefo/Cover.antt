-- ===== src/Inventory/Fefo/Cover.antt =====
-- How much `allocateFefo` takes, and from which batch.
use stock_mgt.Prelude.{
  ℕ, ◌+◌, ◌-◌, ◌≤◌, ◌<◌, ◌≡◌, ◌≢◌, refl, List, [], ◌∷◌, ◌++◌, arith, min, ◌==◌, if◌then◌else◌,
}
use stock_mgt.Prelude.Int.{pos, pos_part}
use stock_mgt.Prelude.Lists.{sum_by, All}
use stock_mgt.Prelude.Result.{ok}
use stock_mgt.Prelude.Sort.{sum_by-sort}
use stock_mgt.Inventory.Fefo.{
  AllocatableBatch, Allocation, AllocationResult, goes_before, sort_fefo, allocate_loop,
  allocate_fefo,
}

-- What is on hand in a batch, nothing if it is negative, and in all of them.
abbrev pub stock_in : AllocatableBatch → ℕ
stock_in b = pos_part b.quantity

abbrev pub available : List AllocatableBatch → ℕ
available = sum_by stock_in

-- What a list of allocations takes from one batch, and in all.
abbrev pub taken : ℕ → List Allocation → ℕ
taken id = sum_by (λ a. if a.batch_id == id then a.quantity else 0)

abbrev pub total_taken : List Allocation → ℕ
total_taken = sum_by (λ a. a.quantity)

allocate_loop-total :
    (bs : List AllocatableBatch) (q : ℕ)
    → total_taken (allocate_loop bs q).allocations ≡ min (available bs) q
unfolding allocate_loop
allocate_loop-total [] q = omega arith
allocate_loop-total (b ∷ bs) q =
    ground
      (arith, allocate_loop-total bs q, allocate_loop-total bs (q - min (pos_part b.quantity) q))

allocate_loop-shortfall :
    (bs : List AllocatableBatch) (q : ℕ) → (allocate_loop bs q).shortfall ≡ q - available bs
unfolding allocate_loop
allocate_loop-shortfall [] q = omega arith
allocate_loop-shortfall (b ∷ bs) q = ground (
  arith,
  allocate_loop-shortfall bs q,
  allocate_loop-shortfall bs (q - min (pos_part b.quantity) q),
)

allocate_loop-positive :
    (bs : List AllocatableBatch) (q : ℕ)
    → All (λ a. 0 < a.quantity) (allocate_loop bs q).allocations
unfolding allocate_loop
allocate_loop-positive [] q = tt
allocate_loop-positive (b ∷ bs) q = ground (
  arith,
  allocate_loop-positive bs q,
  allocate_loop-positive bs (q - min (pos_part b.quantity) q),
)

-- No batch gives more than the stock of the batches with its id.
unfoldable pub stock_at : ℕ → List AllocatableBatch → ℕ
stock_at id = sum_by (λ b. if b.batch_id == id then stock_in b else 0)

pub taken-le-stock_at :
    (id : ℕ) (bs : List AllocatableBatch) (q : ℕ)
    → taken id (allocate_loop bs q).allocations ≤ stock_at id bs
unfolding allocate_loop stock_at
taken-le-stock_at id [] q = omega arith
taken-le-stock_at id (b ∷ bs) q =
    ground
      (arith, taken-le-stock_at id bs q, taken-le-stock_at id bs (q - min (pos_part b.quantity) q))

abbrev pub Absent : ℕ → List AllocatableBatch → Type 0
Absent id = All (λ b. b.batch_id ≢ id)

stock_at-Absent : (id : ℕ) (bs : List AllocatableBatch) → Absent id bs → stock_at id bs ≡ 0
unfolding stock_at
stock_at-Absent id [] h = refl
stock_at-Absent id (b ∷ bs) (p, h) = ground (arith, stock_at-Absent id bs h)

taken-Absent :
    (id : ℕ) (bs : List AllocatableBatch) (q : ℕ)
    → Absent id bs
    → taken id (allocate_loop bs q).allocations ≡ 0
taken-Absent id bs q h = omega (arith, taken-le-stock_at id bs q, stock_at-Absent id bs h)

allocate_loop-share :
    (pre : List AllocatableBatch) (b : AllocatableBatch) (post : List AllocatableBatch) (q : ℕ)
    → Absent b.batch_id pre
    → Absent b.batch_id post
    → taken b.batch_id (allocate_loop (pre ++ b ∷ post) q).allocations
      ≡ min (stock_in b) (q - available pre)
unfolding allocate_loop
allocate_loop-share [] b post q h k = ground (
  arith,
  taken-Absent b.batch_id post q k,
  taken-Absent b.batch_id post (q - min (pos_part b.quantity) q) k,
)
allocate_loop-share (a ∷ pre) b post q (p, h) k = ground (
  arith,
  allocate_loop-share pre b post q h k,
  allocate_loop-share pre b post (q - min (pos_part a.quantity) q) h k,
)

allocate_fefo-runs :
    (bs : List AllocatableBatch) (q : ℕ)
    → 0 < q
    → allocate_fefo bs (pos q) ≡ ok (allocate_loop (sort_fefo bs) q)
unfolding allocate_fefo
allocate_fefo-runs bs q h = ground arith

available-sort_fefo : (bs : List AllocatableBatch) → available (sort_fefo bs) ≡ available bs
unfolding sort_fefo
available-sort_fefo bs = sum_by-sort goes_before stock_in bs

stock_at-sort_fefo :
    (id : ℕ) (bs : List AllocatableBatch) → stock_at id (sort_fefo bs) ≡ stock_at id bs
unfolding sort_fefo stock_at
stock_at-sort_fefo id bs = sum_by-sort goes_before _ bs

-- A positive quantity is allocated with no exception: what is taken and the shortfall add up to it,
-- the shortfall is just what the batches together do not hold (a negative batch holds nothing),
-- every allocation is positive, and no batch id gives more than its batches hold.
pub allocate_fefo-covers :
    (bs : List AllocatableBatch) (q : ℕ)
    → 0 < q
    → (r : AllocationResult) × (allocate_fefo bs (pos q) ≡ ok r)
      × (total_taken r.allocations + r.shortfall ≡ q)
      × (r.shortfall ≡ q - available bs)
      × All (λ a. 0 < a.quantity) r.allocations
      × ((id : ℕ) → taken id r.allocations ≤ stock_at id bs)
allocate_fefo-covers bs q h =
    let sorted = sort_fefo bs in
    let same = available-sort_fefo bs in
    let short = allocate_loop-shortfall sorted q in
    (
      allocate_loop sorted q,
      allocate_fefo-runs bs q h,
      omega (arith, allocate_loop-total sorted q),
      omega arith,
      allocate_loop-positive sorted q,
      λ id. omega (arith, taken-le-stock_at id sorted q, stock_at-sort_fefo id bs),
    )

-- First expired, first out: with distinct ids, a batch gives what it holds or what the batches sorted
-- before it leave to take, whichever is less. So no batch is drawn on before those ahead are empty.
pub allocate_fefo-share :
    (bs : List AllocatableBatch) (q : ℕ) (pre : List AllocatableBatch) (b : AllocatableBatch)
    (post : List AllocatableBatch)
    → 0 < q
    → sort_fefo bs ≡ pre ++ b ∷ post
    → Absent b.batch_id pre
    → Absent b.batch_id post
    → (r : AllocationResult) × (allocate_fefo bs (pos q) ≡ ok r)
      × (taken b.batch_id r.allocations ≡ min (stock_in b) (q - available pre))
allocate_fefo-share bs q pre b post h e k l = (
  allocate_loop (sort_fefo bs) q,
  allocate_fefo-runs bs q h,
  rw e (allocate_loop-share pre b post q k l),
)
