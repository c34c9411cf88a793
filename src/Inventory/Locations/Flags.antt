-- ===== src/Inventory/Locations/Flags.antt =====
-- Counting the rows of `locations` that pass a test, under the writes of
-- src/modules/inventory/location.service.ts.
use stock_mgt.Prelude.{
  ℕ, ◌≤◌, ◌≡◌, refl, Bool, true, false, not, ◌&&◌, some, List, [], ◌∷◌, arith, inl, inr, Bool-cases,
  ◌==◌, ==_refl, if◌then◌else◌,
}
use stock_mgt.Prelude.Lists.{find, any, sum_by}
use stock_mgt.Inventory.Locations.{Location}
use stock_mgt.Inventory.Locations.Writes.{update_where, put, demote_other_defaults}

abbrev pub one_if : Bool → ℕ
one_if b = if b then 1 else 0

abbrev pub count : (Location → Bool) → List Location → ℕ
count test = sum_by (λ l. one_if (test l))

abbrev pub has_id : ℕ → Location → Bool
has_id id l = l.id == id

abbrev pub is_flagged : Location → Bool
is_flagged l = l.is_default

-- A default that has been deleted.
abbrev pub is_stray : Location → Bool
is_stray l = l.is_default && l.is_deleted

pub count-update_where :
    (here : Location → Bool) (change : Location → Location) (after before : Location → Bool)
    → ((l : Location) → one_if (after (if here l then change l else l)) ≤ one_if (before l))
    → (ls : List Location) → count after (update_where here change ls) ≤ count before ls
unfolding update_where
count-update_where here change after before h [] = omega arith
count-update_where here change after before h (l ∷ ls) =
    omega (arith, h l, count-update_where here change after before h ls)

pub count-put-has_id :
    (row : Location) (id : ℕ) (ls : List Location)
    → count (has_id id) (put row ls) ≤ count (has_id id) ls
count-put-has_id row id =
    count-update_where (has_id row.id) (λ l. row) (has_id id) (has_id id)
      (λ l. elim (Bool-cases (l.id == row.id)) [
        | inl e ↦ ground arith
        | inr e ↦ rw e (omega arith)
      ])

pub count-put :
    (test : Location → Bool) (row : Location)
    → test row ≡ false
    → (ls : List Location) → count test (put row ls) ≤ count test ls
count-put test row out =
    count-update_where (has_id row.id) (λ l. row) test test
      (λ l. elim (Bool-cases (l.id == row.id)) [
        | inl e ↦ rw (e, out) (omega arith)
        | inr e ↦ rw e (omega arith)
      ])

pub count-demote-has_id :
    (keep id : ℕ) (ls : List Location)
    → count (has_id id) (demote_other_defaults keep ls) ≤ count (has_id id) ls
count-demote-has_id keep id =
    count-update_where (λ l. not (l.id == keep) && l.is_default)
      (λ l. record l { is_default = false }) (has_id id) (has_id id)
      (λ l. elim (Bool-cases (not (l.id == keep) && l.is_default)) [
        | inl e ↦ rw e (omega arith)
        | inr e ↦ rw e (omega arith)
      ])

-- What is still flagged has the id that was kept.
pub count-demote-is_flagged :
    (keep : ℕ) (ls : List Location)
    → count is_flagged (demote_other_defaults keep ls) ≤ count (has_id keep) ls
count-demote-is_flagged keep =
    count-update_where (λ l. not (l.id == keep) && l.is_default)
      (λ l. record l { is_default = false }) is_flagged (has_id keep)
      (λ l. elim (Bool-cases (l.id == keep)) [
        | inl e ↦ elim (Bool-cases l.is_default) [
          | inl d ↦ rw (e, d) (omega arith)
          | inr d ↦ rw (e, d) (omega arith)
        ]
        | inr e ↦ elim (Bool-cases l.is_default) [
          | inl d ↦ rw (e, d) (omega arith)
          | inr d ↦ rw (e, d) (omega arith)
        ]
      ])

pub count-demote-is_stray :
    (keep : ℕ) (ls : List Location)
    → count is_stray (demote_other_defaults keep ls) ≤ count is_stray ls
count-demote-is_stray keep =
    count-update_where (λ l. not (l.id == keep) && l.is_default)
      (λ l. record l { is_default = false }) is_stray is_stray
      (λ l. elim (Bool-cases (not (l.id == keep) && l.is_default)) [
        | inl e ↦ rw e (omega arith)
        | inr e ↦ rw e (omega arith)
      ])

-- A test that no row passes.
pub count-any :
    (test more : Location → Bool)
    → ((l : Location) → more l ≡ false → test l ≡ false)
    → (ls : List Location) → any more ls ≡ false
    → count test ls ≡ 0
count-any test more h [] none_of = refl
count-any test more h (l ∷ ls) none_of = elim (Bool-cases (more l)) [
  | inr e ↦ let rest = count-any test more h ls (ground arith) in rw (h l e) (omega (arith, rest))
  | inl e ↦ ground arith
]

pub find-passes :
    (p : Location → Bool) (l : Location) (ls : List Location) → find p ls ≡ some l → p l ≡ true
find-passes p l [] h = cc
find-passes p l (x ∷ ls) h = elim (Bool-cases (p x)) [
  | inl e ↦ ground arith
  | inr e ↦ find-passes p l ls (ground arith)
]

-- A row that was found counts.
pub count-find :
    (p test : Location → Bool) (l : Location) (ls : List Location)
    → find p ls ≡ some l
    → test l ≡ true
    → 1 ≤ count test ls
count-find p test l [] h t = cc
count-find p test l (x ∷ ls) h t = elim (Bool-cases (p x)) [
  | inl e ↦ ground arith
  | inr e ↦ omega (arith, count-find p test l ls (ground arith) t)
]

pub find-put :
    (p : Location → Bool) (l row : Location) (ls : List Location)
    → find (λ x. p x && has_id row.id x) ls ≡ some l
    → find (has_id row.id) (put row ls) ≡ some row
unfolding update_where
find-put p l row [] h = cc
find-put p l row (x ∷ ls) h = elim (Bool-cases (x.id == row.id)) [
  | inl e ↦ rw (e, ==_refl row.id) refl
  | inr e ↦ rw (e, e) (find-put p l row ls (ground arith))
]

pub find-demote :
    (row : Location) (ls : List Location)
    → find (has_id row.id) ls ≡ some row
    → find (has_id row.id) (demote_other_defaults row.id ls) ≡ some row
unfolding update_where
find-demote row [] h = cc
find-demote row (x ∷ ls) h = elim (Bool-cases (x.id == row.id)) [
  | inl e ↦ ground arith
  | inr e ↦ elim (Bool-cases x.is_default) [
    | inl d ↦ rw (e, d, e) (find-demote row ls (ground arith))
    | inr d ↦ rw (e, d, e) (find-demote row ls (ground arith))
  ]
]

pub and_right : (a b : Bool) → (a && b) ≡ true → b ≡ true
and_right true b h = h
and_right false b h = cc

pub and_false : (a b : Bool) → b ≡ false → (a && b) ≡ false
and_false true b h = h
and_false false b h = refl
