-- ===== src/Inventory/Locations/Writes.antt =====
-- The requests of src/modules/inventory/location.service.ts that write the table: `create`, `update` and
-- `remove`, for one organization. A request that throws has written nothing.
use stock_mgt.Prelude.{
  ℕ, Bool, true, false, not, ◌&&◌, ◌||◌, Option, none, some, List, [], ◌∷◌, ◌++◌, ◌==◌,
  if◌then◌else◌, or_else,
}
use stock_mgt.Prelude.Int.{ℤ, pos, eqb_ℤ}
use stock_mgt.Prelude.Lists.{find, any, select, sum_ℤ}
use stock_mgt.Prelude.Result.{Result, ok, err, Error, throw_if, ◌>>=◌, ◌>>◌}
use stock_mgt.Inventory.Stock.Tables.{Text, StockBalance}
use stock_mgt.Inventory.Locations.{Location, find_one_or_fail}

pub record CreateLocation : Type 0 where
  pub id : Option ℕ
  pub name : Text
  pub description : Option Text
  pub is_default : Option Bool
  pub sort_order : Option ℕ

-- `description` may be left out, and may be null.
pub record UpdateLocation : Type 0 where
  pub name : Option Text
  pub description : Option (Option Text)
  pub is_default : Option Bool
  pub sort_order : Option ℕ

abbrev pub text_eq : Text → Text → Bool
text_eq [] [] = true
text_eq (a ∷ s) (b ∷ t) = (a == b) && text_eq s t
text_eq _ _ = false

-- `updateMany`.
unfoldable pub update_where :
    (Location → Bool) → (Location → Location) → List Location → List Location
update_where here change [] = []
update_where here change (l ∷ ls) = (if here l then change l else l) ∷ update_where here change ls

-- `update` of the row with this id.
abbrev pub put : Location → List Location → List Location
put row = update_where (λ l. l.id == row.id) (λ l. row)

abbrev pub demote_other_defaults : (keep_id : ℕ) → List Location → List Location
demote_other_defaults keep_id =
    update_where (λ l. not (l.id == keep_id) && l.is_default) (λ l. record l { is_default = false })

-- What comes after a write: a row that is the default clears the flag on every other.
abbrev pub settle_default : Location → List Location → Location × List Location
settle_default row table =
    (row, if row.is_default then demote_other_defaults row.id table else table)

abbrev pub translate_unique_violation : Error → Error
translate_unique_violation Error.unique = Error.conflict
translate_unique_violation e = e

abbrev pub translated : {A : Type 0} → Result A → Result A
translated (ok a) = ok a
translated (err e) = err (translate_unique_violation e)

-- The unique constraints: the id, and the name within the organization.
abbrev pub insert : Location → List Location → Result (List Location)
insert row table =
    throw_if (any (λ l. (l.id == row.id) || text_eq l.name row.name) table) Error.unique
    >> ok (table ++ row ∷ [])

abbrev pub save : Location → List Location → Result (List Location)
save row table =
    throw_if (any (λ l. not (l.id == row.id) && text_eq l.name row.name) table) Error.unique
    >> ok (put row table)

-- A name freed by a soft delete is taken back with its row.
abbrev pub revived : CreateLocation → Location → Location
revived input buried = record buried {
  is_deleted = false;
  description = input.description;
  sort_order = or_else input.sort_order buried.sort_order;
}

-- The columns that were left out have the defaults of the schema.
abbrev pub new_location : CreateLocation → (random_uuid : ℕ) → Location
new_location input random_uuid = record {
  id = or_else input.id random_uuid;
  name = input.name;
  description = input.description;
  sort_order = or_else input.sort_order 0;
  is_default = or_else input.is_default false;
  is_deleted = false;
}

abbrev pub edited : UpdateLocation → Location → Location
edited input l = record l {
  name = or_else input.name l.name;
  description = or_else input.description l.description;
  sort_order = or_else input.sort_order l.sort_order;
  is_default = or_else input.is_default l.is_default;
}

abbrev pub buried_as : Text → List Location → Option Location
buried_as name = find (λ l. text_eq l.name name && l.is_deleted)

unfoldable pub create :
    CreateLocation → (random_uuid : ℕ) → List Location → Result (Location × List Location)
create input random_uuid table = elim (buried_as input.name table) [
  | some buried ↦ ok (revived input buried, put (revived input buried) table)
  | none ↦
      let row = new_location input random_uuid in
      translated (insert row table) >>= λ written. ok (settle_default row written)
]

unfoldable pub update : ℕ → UpdateLocation → List Location → Result (Location × List Location)
update id input table = find_one_or_fail id table >>= λ l.
    translated (save (edited input l) table) >>= λ written.
    ok (settle_default (edited input l) written)

-- The aggregate over the balances of a location.
abbrev pub remaining : ℕ → List StockBalance → ℤ
remaining id balances =
    sum_ℤ (λ b. b.quantity) (select (λ (b : StockBalance). b.key.location_id == id) balances)

unfoldable pub remove : ℕ → List StockBalance → List Location → Result (List Location)
remove id balances table = find_one_or_fail id table >>= λ location.
    throw_if (not (eqb_ℤ (remaining id balances) (pos 0))) Error.conflict
    >> throw_if location.is_default Error.conflict
    >> ok (put (record location { is_deleted = true }) table)
