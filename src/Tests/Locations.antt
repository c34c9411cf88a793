-- ===== src/Tests/Locations.antt =====
-- A second location is added, made the default, and the first is closed.
use stock_mgt.Prelude.{◌≡◌, refl, Bool, true, Option, none, some, List, [], ◌∷◌, arith}
use stock_mgt.Prelude.Result.{Result, ok, err, Error}
use stock_mgt.Inventory.Locations.{Location, default_location_row, resolve_default_id}
use stock_mgt.Inventory.Locations.Writes.{
  CreateLocation, UpdateLocation, create, update, remove, update_where,
}
use stock_mgt.Inventory.Locations.Flags.{count}
use stock_mgt.Inventory.Locations.Default.{IsSound, Step, Reach, Reach-IsSound}
use stock_mgt.Inventory.Locations.Resolve.{update-resolves}

abbrev van : CreateLocation
van = record {
  id = none;
  name = 86 ∷ [];
  description = none;
  is_default = none;
  sort_order = some 20;
}

abbrev flag : Option Bool → UpdateLocation
flag is_default = record {
  name = none;
  description = none;
  is_default = is_default;
  sort_order = none;
}

abbrev rows_of : Result (Location × List Location) → List Location
rows_of (ok r) = r.1
rows_of (err e) = []

abbrev left : Result (List Location) → List Location
left (ok rows) = rows
left (err e) = []

abbrev opened : List Location
opened = default_location_row 1 ∷ []

abbrev with_van : List Location
with_van = rows_of (create van 2 opened)

abbrev van_first : List Location
van_first = rows_of (update 2 (flag (some true)) with_van)

abbrev closed : List Location
closed = left (remove 1 [] van_first)

with_van-reached : Reach 1 with_van
unfolding create update_where
with_van-reached = Reach.next Reach.here (Step.created van 2 refl)

van_first-reached : Reach 1 van_first
unfolding create update update_where
van_first-reached = Reach.next with_van-reached (Step.updated 2 (flag (some true)) refl)

closed-reached : Reach 1 closed
unfolding create update remove update_where
closed-reached = Reach.next van_first-reached (Step.removed 1 [] refl)

Reach-IsSound_example : IsSound closed
Reach-IsSound_example = Reach-IsSound closed-reached

abbrev swapped : List Location → List Location
swapped (a ∷ b ∷ []) = b ∷ a ∷ []
swapped rows = rows

swapped_same : (test : Location → Bool) → count test (swapped van_first) ≡ count test van_first
unfolding create update update_where
swapped_same test = omega arith

update-resolves_example : resolve_default_id (swapped van_first) ≡ ok 2
unfolding create update update_where
update-resolves_example =
    update-resolves 2 (flag (some true)) (swapped van_first) with_van-reached refl refl swapped_same

-- A default that holds nothing cannot be removed, and a name that is live cannot be taken again.
refused : (remove 1 [] opened ≡ err Error.conflict) × (create van 3 with_van ≡ err Error.conflict)
unfolding create remove update_where
refused = (refl, refl)
