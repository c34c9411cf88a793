-- ===== src/Inventory/Locations.antt =====
-- src/modules/inventory/location.service.ts: the places where stock is kept. A name is the list of its
-- code points; the table is a list of rows, in the order that its reads ask for.
use stock_mgt.Prelude.{ℕ, Bool, true, false, not, ◌&&◌, Option, none, some, List, [], ◌∷◌, ◌==◌}
use stock_mgt.Prelude.Lists.{find, select}
use stock_mgt.Prelude.Result.{Result, ok, err, Error}
pub mod Writes
pub mod Flags
pub mod Default
pub mod Resolve

-- A row of `locations`.
pub record Location : Type 0 where
  pub id : ℕ
  pub name : List ℕ
  pub description : Option (List ℕ)
  pub sort_order : ℕ
  pub is_default : Bool
  pub is_deleted : Bool

-- The first live row that passes a test.
abbrev pub first_live : (Location → Bool) → List Location → Option Location
first_live test = find (λ l. not l.is_deleted && test l)

abbrev pub find_one_or_fail : ℕ → List Location → Result Location
find_one_or_fail id locations = elim (first_live (λ l. l.id == id) locations) [
  | none ↦ err Error.not_found
  | some l ↦ ok l
]

abbrev pub assert_exists : ℕ → List Location → Result (Unit {0})
assert_exists id locations = elim (find_one_or_fail id locations) [ err e ↦ err e | ok l ↦ ok tt ]

-- The flagged default, or the first live location when none is flagged.
unfoldable pub resolve_default_id : List Location → Result ℕ
resolve_default_id locations = elim (first_live (λ l. l.is_default) locations) [
  | some preferred ↦ ok preferred.id
  | none ↦ elim (first_live (λ l. true) locations) [
    | none ↦ err Error.not_found
    | some any_location ↦ ok any_location.id
  ]
]

-- The row that every organization starts with; its description is left out.
abbrev pub default_location : List ℕ
default_location = 77 ∷ 97 ∷ 105 ∷ 110 ∷ 32 ∷ 83 ∷ 116 ∷ 111 ∷ 114 ∷ 101 ∷ []

abbrev pub default_location_row : (random_uuid : ℕ) → Location
default_location_row random_uuid = record {
  id = random_uuid;
  name = default_location;
  description = none;
  sort_order = 10;
  is_default = true;
  is_deleted = false;
}

-- The live rows.
abbrev pub find_all : List Location → List Location
find_all = select (λ l. not l.is_deleted)
