-- ===== src/Inventory/Locations/Default.antt =====
-- The default location over any sequence of the requests of
-- src/modules/inventory/location.service.ts, one at a time.
use stock_mgt.Prelude.{
  ℕ, ◌≤◌, ◌≡◌, refl, Bool, true, false, not, ◌&&◌, ◌||◌, some, List, [], ◌∷◌, ◌++◌, arith, inl, inr,
  Bool-cases, Option-cases, ◌==◌,
}
use mathlib.Core.Path.{subst}
use stock_mgt.Prelude.Int.{pos, eqb_ℤ}
use stock_mgt.Prelude.Lists.{any, sum_by-append}
use stock_mgt.Prelude.Result.{ok, Returns}
use stock_mgt.Inventory.Stock.Tables.{StockBalance}
use stock_mgt.Inventory.Locations.{Location, first_live, default_location_row}
use stock_mgt.Inventory.Locations.Writes.{
  CreateLocation, UpdateLocation, create, update, remove, put, settle_default, edited, revived,
  new_location, buried_as, text_eq, remaining,
}
use stock_mgt.Inventory.Locations.Flags.{
  one_if, count, has_id, is_flagged, is_stray, count-put-has_id, count-put, count-demote-has_id,
  count-demote-is_flagged, count-demote-is_stray, count-any, find-passes, and_right, and_false,
  count-find,
}

-- Ids are distinct, one row at most is the default, and a deleted row never is.
abbrev pub IsSound : List Location → Type 0
IsSound table =
    ((id : ℕ) → count (has_id id) table ≤ 1)
    × (count is_flagged table ≤ 1)
    × (count is_stray table ≡ 0)

-- A request that returned, or another order in which the database reads the rows.
pub data Step : List Location → List Location → Type 0 where
  created :
      (input : CreateLocation) (random_uuid : ℕ) {before after : List Location} {l : Location}
      → create input random_uuid before ≡ ok (l, after)
      → Step before after
  updated :
      (id : ℕ) (input : UpdateLocation) {before after : List Location} {l : Location}
      → update id input before ≡ ok (l, after)
      → Step before after
  removed :
      (id : ℕ) (balances : List StockBalance) {before after : List Location}
      → remove id balances before ≡ ok after
      → Step before after
  reordered :
      (front : List Location) (a b : Location) (back : List Location)
      → Step (front ++ a ∷ b ∷ back) (front ++ b ∷ a ∷ back)

-- From the table that an organization starts with.
pub data Reach (random_uuid : ℕ) : List Location → Type 0 where
  here : Reach random_uuid (default_location_row random_uuid ∷ [])
  next :
      {before after : List Location}
      → Reach random_uuid before
      → Step before after
      → Reach random_uuid after

count-swap :
    (test : Location → Bool) (front : List Location) (a b : Location) (back : List Location)
    → count test (front ++ b ∷ a ∷ back) ≡ count test (front ++ a ∷ b ∷ back)
count-swap test front a b back =
    let n = λ (l : Location). one_if (test l) in
    rw (sum_by-append n front (b ∷ a ∷ back), sum_by-append n front (a ∷ b ∷ back)) (omega arith)

-- The row has been written; if it is flagged, the others may be too.
settle_default-IsSound :
    (row : Location) (table : List Location)
    → ((id : ℕ) → count (has_id id) table ≤ 1)
    → (row.is_default ≡ false → count is_flagged table ≤ 1)
    → count is_stray table ≡ 0
    → IsSound (settle_default row table).1
settle_default-IsSound row table ids flags strays = elim (Bool-cases row.is_default) [
  | inr e ↦ rw e (ids, flags e, strays)
  | inl e ↦ rw e (
    λ id. omega (arith, ids id, count-demote-has_id row.id id table),
    omega (arith, ids row.id, count-demote-is_flagged row.id table),
    omega (arith, strays, count-demote-is_stray row.id table),
  )
]

put-IsSound :
    (row : Location) (table : List Location)
    → row.is_default ≡ false
    → IsSound table
    → IsSound (put row table)
put-IsSound row table e (ids, flags, strays) = (
  λ id. omega (arith, ids id, count-put-has_id row id table),
  omega (arith, flags, count-put is_flagged row e table),
  omega (arith, strays, count-put is_stray row (rw e refl) table),
)

saved-IsSound :
    (row : Location) (table : List Location)
    → is_stray row ≡ false
    → IsSound table
    → IsSound (settle_default row (put row table)).1
saved-IsSound row table e (ids, flags, strays) =
    settle_default-IsSound row (put row table)
      (λ id. omega (arith, ids id, count-put-has_id row id table))
      (λ d. omega (arith, flags, count-put is_flagged row d table))
      (omega (arith, strays, count-put is_stray row e table))

inserted-IsSound :
    (row : Location) (table : List Location)
    → is_stray row ≡ false
    → any (λ l. (l.id == row.id) || text_eq l.name row.name) table ≡ false
    → IsSound table
    → IsSound (settle_default row (table ++ row ∷ [])).1
inserted-IsSound row table e free (ids, flags, strays) =
    let n = λ (test : Location → Bool). sum_by-append (λ l. one_if (test l)) table (row ∷ []) in
    settle_default-IsSound row (table ++ row ∷ [])
      (λ id. elim (Bool-cases (row.id == id)) [
        | inr apart ↦ rw (n (has_id id), apart) (omega (arith, ids id))
        | inl same ↦
            let absent =
              count-any (has_id id) (λ l. (l.id == row.id) || text_eq l.name row.name)
                (λ l h. ground arith) table free in
            rw (n (has_id id), same, absent) (omega arith)
      ])
      (λ d. rw (n is_flagged, d) (omega (arith, flags)))
      (rw (n is_stray, e) (omega (arith, strays)))

found_live :
    (test : Location → Bool) (table : List Location) (l : Location)
    → first_live test table ≡ some l
    → l.is_deleted ≡ false
found_live test table l e =
    let passes = find-passes _ l table e in
    elim (Bool-cases l.is_deleted) [ inr live ↦ live | inl dead ↦ ground arith ]

-- A deleted row is not the default.
unflagged :
    (name : List ℕ) (table : List Location) (buried : Location)
    → buried_as name table ≡ some buried
    → IsSound table
    → buried.is_default ≡ false
unflagged name table buried e (ids, flags, strays) = elim (Bool-cases buried.is_default) [
  | inr d ↦ d
  | inl d ↦
      let dead =
        and_right (text_eq buried.name name) buried.is_deleted (find-passes _ buried table e) in
      let counted = count-find _ is_stray buried table e (rw (d, dead) refl) in
      absurd (omega (arith, counted, strays))
]

create-IsSound :
    (input : CreateLocation) (random_uuid : ℕ) (table : List Location)
    → IsSound table
    → Returns (λ r. IsSound r.1) (create input random_uuid table)
unfolding create
create-IsSound input random_uuid table sound = elim (Option-cases (buried_as input.name table)) [
  | inr (buried, e) ↦
      rw (e, Returns)
        (put-IsSound (revived input buried) table (unflagged input.name table buried e sound) sound)
  | inl e ↦
      let row = new_location input random_uuid in
      elim (Bool-cases (any (λ l. (l.id == row.id) || text_eq l.name row.name) table)) [
        | inl taken ↦ rw (e, taken, Returns) tt
        | inr free ↦
            rw (e, free, Returns)
              (inserted-IsSound row table (and_false row.is_default false refl) free sound)
      ]
]

update-IsSound :
    (id : ℕ) (input : UpdateLocation) (table : List Location)
    → IsSound table
    → Returns (λ r. IsSound r.1) (update id input table)
unfolding update
update-IsSound id input table sound = elim (Option-cases (first_live (has_id id) table)) [
  | inl e ↦ rw (e, Returns) tt
  | inr (l, e) ↦
      let row = edited input l in
      elim (Bool-cases (any (λ x. not (x.id == row.id) && text_eq x.name row.name) table)) [
        | inl taken ↦ rw (e, taken, Returns) tt
        | inr free ↦
            rw (e, free, Returns)
              (saved-IsSound row table
                (and_false row.is_default l.is_deleted (found_live (has_id id) table l e)) sound)
      ]
]

remove-IsSound :
    (id : ℕ) (balances : List StockBalance) (table : List Location)
    → IsSound table
    → Returns IsSound (remove id balances table)
unfolding remove
remove-IsSound id balances table sound = elim (Option-cases (first_live (has_id id) table)) [
  | inl e ↦ rw (e, Returns) tt
  | inr (l, e) ↦ elim (Bool-cases (eqb_ℤ (remaining id balances) (pos 0))) [
    | inr holds ↦ rw (e, holds, Returns) tt
    | inl empty ↦ elim (Bool-cases l.is_default) [
      | inl d ↦ rw (e, empty, d, Returns) tt
      | inr d ↦
          rw (e, empty, d, Returns)
            (put-IsSound (record l { is_default = false; is_deleted = true }) table refl sound)
    ]
  ]
]

reordered-IsSound :
    (front : List Location) (a b : Location) (back : List Location)
    → IsSound (front ++ a ∷ b ∷ back)
    → IsSound (front ++ b ∷ a ∷ back)
reordered-IsSound front a b back (ids, flags, strays) =
    let same = λ (test : Location → Bool). count-swap test front a b back in
    (
      λ id. omega (arith, ids id, same (has_id id)),
      omega (arith, flags, same is_flagged),
      omega (arith, strays, same is_stray),
    )

-- In every table that the requests can reach, ids are distinct, at most one location is the default,
-- and no deleted location is.
pub Reach-IsSound :
    {random_uuid : ℕ} {table : List Location} → Reach random_uuid table → IsSound table
Reach-IsSound Reach.here = (λ id. ground arith, omega arith, refl)
Reach-IsSound (Reach.next r (Step.created input random_uuid {before} e)) =
    subst (Returns (λ r. IsSound r.1)) e (create-IsSound input random_uuid before (Reach-IsSound r))
Reach-IsSound (Reach.next r (Step.updated id input {before} e)) =
    subst (Returns (λ r. IsSound r.1)) e (update-IsSound id input before (Reach-IsSound r))
Reach-IsSound (Reach.next r (Step.removed id balances {before} e)) =
    subst (Returns IsSound) e (remove-IsSound id balances before (Reach-IsSound r))
Reach-IsSound (Reach.next r (Step.reordered front a b back)) =
    reordered-IsSound front a b back (Reach-IsSound r)
