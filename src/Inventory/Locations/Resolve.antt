-- ===== src/Inventory/Locations/Resolve.antt =====
-- Where stock lands when no location is named: `resolveDefaultId` of
-- src/modules/inventory/location.service.ts, after the requests that flag a location.
use stock_mgt.Prelude.{
  ℕ, ◌≤◌, ◌≡◌, refl, sym, ap, ◌∙◌, if◌then◌else◌, Bool, true, false, not, ◌&&◌, some, List, [], ◌∷◌,
  arith, inl, inr, Bool-cases, Option-cases, ◌==◌, ==_iff,
}
use mathlib.Core.Path.{subst}
use stock_mgt.Prelude.Lists.{find, any}
use stock_mgt.Prelude.Result.{ok, Returns}
use stock_mgt.Inventory.Locations.{Location, first_live, resolve_default_id}
use stock_mgt.Inventory.Locations.Writes.{
  UpdateLocation, update, put, settle_default, edited, text_eq,
}
use stock_mgt.Inventory.Locations.Flags.{
  one_if, count, has_id, is_flagged, is_stray, find-passes, and_right, and_false, count-find,
  find-put, find-demote,
}
use stock_mgt.Inventory.Locations.Default.{Reach, Step, Reach-IsSound}

abbrev is_default_of : ℕ → Location → Bool
is_default_of id l = l.is_default && has_id id l

and_both : {a b : Bool} → a ≡ true → b ≡ true → (a && b) ≡ true
and_both h k = rw (h, k) refl

if_true : {A : Type 0} {b : Bool} (x y : A) → b ≡ true → (if b then x else y) ≡ x
if_true x y h = rw h refl

if_false : {A : Type 0} {b : Bool} (x y : A) → b ≡ false → (if b then x else y) ≡ y
if_false x y h = rw h refl

count-is_default_of :
    (id : ℕ) (table : List Location) → count (is_default_of id) table ≤ count is_flagged table
count-is_default_of id [] = omega arith
count-is_default_of id (x ∷ xs) =
    let rest = count-is_default_of id xs in
    elim (Bool-cases x.is_default) [ inl d ↦ ground (arith, rest) | inr d ↦ ground (arith, rest) ]

-- The one flagged row is the first live row with the flag.
flagged-first_live :
    (id : ℕ) (table : List Location)
    → count is_flagged table ≤ 1
    → count is_stray table ≡ 0
    → 1 ≤ count (is_default_of id) table
    → (l : Location) × (first_live is_flagged table ≡ some l) × (l.id ≡ id)
flagged-first_live id [] flags strays some_one = absurd (omega (arith, some_one))
flagged-first_live id (x ∷ xs) flags strays some_one = elim (Bool-cases x.is_default) [
  | inr plain ↦
      let none_here : one_if (is_default_of id x) ≡ 0 = rw plain refl in
      let (l, first, this) =
        flagged-first_live id xs (omega (arith, flags)) (omega (arith, strays))
          (omega (arith, some_one, none_here)) in
      (l, if_false (some x) _ (and_false (not x.is_deleted) x.is_default plain) ∙ first, this)
  | inl d ↦
      let one_here : one_if (is_flagged x) ≡ 1 = rw d refl in
      elim (Bool-cases x.is_deleted) [
        | inl dead ↦
            let stray : one_if (is_stray x) ≡ 1 = rw (d, dead) refl in
            absurd (omega (arith, strays, stray))
        | inr live ↦ elim (Bool-cases (x.id == id)) [
          | inl e ↦ (x, if_true (some x) _ (and_both (ap not live) d), (==_iff x.id id).0 e)
          | inr e ↦
              let none_here : one_if (is_default_of id x) ≡ 0 = rw (d, e) refl in
              absurd
                (omega (arith, flags, one_here, some_one, none_here, count-is_default_of id xs))
        ]
      ]
]

settled_default :
    (id : ℕ) (row : Location) (table : List Location)
    → row.is_default ≡ true
    → row.id ≡ id
    → find (has_id row.id) table ≡ some row
    → 1 ≤ count (is_default_of id) (settle_default row table).1
settled_default id row table d same found =
    let kept = find-demote row table found in
    let counted =
      count-find (has_id row.id) (is_default_of id) row _ kept
        (and_both d ((==_iff row.id id).1 same)) in
    rw d counted

made_default :
    (id : ℕ) (input : UpdateLocation) (table : List Location)
    → Returns
        (λ r. r.0.is_default ≡ true → 1 ≤ count (is_default_of id) r.1)
        (update id input table)
unfolding update
made_default id input table = elim (Option-cases (first_live (has_id id) table)) [
  | inl e ↦ rw (e, Returns) tt
  | inr (l, e) ↦
      let row = edited input l in
      elim (Bool-cases (any (λ x. not (x.id == row.id) && text_eq x.name row.name) table)) [
        | inl taken ↦ rw (e, taken, Returns) tt
        | inr free ↦
            rw (e, free, Returns)
              (λ d.
                let same =
                  (==_iff l.id id).0
                    (and_right (not l.is_deleted) (l.id == id) (find-passes _ l table e)) in
                settled_default id row (put row table) d same (
                  find-put (λ x. not x.is_deleted) l row table
                    (subst (λ k. find (λ x. not x.is_deleted && has_id k x) table ≡ some l)
                      (sym same) e)))
      ]
]

-- Making a location the default makes it the one that stock lands in when no location is named, in
-- whatever order the rows are read afterwards.
pub update-resolves :
    {random_uuid : ℕ} {table : List Location} (id : ℕ) (input : UpdateLocation)
    {after : List Location} {row : Location} (rows : List Location)
    → Reach random_uuid table
    → update id input table ≡ ok (row, after)
    → row.is_default ≡ true
    → ((test : Location → Bool) → count test rows ≡ count test after)
    → resolve_default_id rows ≡ ok id
unfolding resolve_default_id
update-resolves {random_uuid} {table} id input {after} rows r e d same =
    let (ids, flags, strays) = Reach-IsSound (Reach.next r (Step.updated id input e)) in
    let flagged =
      subst (Returns (λ r. r.0.is_default ≡ true → 1 ≤ count (is_default_of id) r.1)) e
        (made_default id input table) d in
    let (l, first, this) =
      flagged-first_live id rows (omega (arith, flags, same is_flagged))
        (omega (arith, strays, same is_stray)) (omega (arith, flagged, same (is_default_of id))) in
    rw (resolve_default_id, first) (ap ok this)
