-- ===== src/Catalog/Units.antt =====
-- src/modules/inventory/base-units.ts: which unit of a product a write counts in. A name appears in
-- messages only and is left out; so are the prices that a sale asks for along with the row.
use stock_mgt.Prelude.{ℕ, Bool, not, ◌&&◌, Option, none, some, List, ◌==◌, if◌then◌else◌}
use stock_mgt.Prelude.Lists.{find}
use stock_mgt.Prelude.Result.{Result, ok, err, Error, throw_if, ◌>>=◌, ◌>>◌}
use stock_mgt.Catalog.Variants.{KnownVariant, check_variant}

-- A row of `product_units`; `factor` is how many base units are in it.
pub record ProductUnit : Type 0 where
  pub id : ℕ
  pub factor : ℕ
  pub is_default_selling : Bool
  pub is_sellable : Bool

-- A row of `products`, with its units and options.
pub record Product : Type 0 where
  pub id : ℕ
  pub is_deleted : Bool
  pub track_stock : Bool
  pub units : List ProductUnit
  pub variants : List KnownVariant

pub record UnitOptions : Type 0 where
  pub allow_unstocked : Bool
  pub for_sale : Bool
  pub variant_id : Option ℕ

pub record ResolvedUnit : Type 0 where
  pub product : Product
  pub unit : ProductUnit
  pub variant : Option KnownVariant

abbrev pub find_product : ℕ → List Product → Result Product
find_product product_id products =
    elim (find (λ (p : Product). p.id == product_id && not p.is_deleted) products) [
      | none ↦ err Error.not_found
      | some p ↦ ok p
    ]

-- The default selling unit if it is sold, or else the first unit that is.
abbrev pub selling_unit : List ProductUnit → Option ProductUnit
selling_unit units =
    elim (find (λ (u : ProductUnit). u.is_default_selling && u.is_sellable) units) [
      | some u ↦ some u
      | none ↦ find (λ (u : ProductUnit). u.is_sellable) units
    ]

abbrev pub choose_unit : Option ℕ → Bool → List ProductUnit → Option ProductUnit
choose_unit (some unit_id) for_sale units = find (λ (u : ProductUnit). u.id == unit_id) units
choose_unit none for_sale units =
    if for_sale then selling_unit units else find (λ (u : ProductUnit). u.factor == 1) units

abbrev pub found_unit : Option ProductUnit → Result ProductUnit
found_unit none = err Error.not_found
found_unit (some unit) = ok unit

unfoldable pub resolve_product_unit :
    List Product → ℕ → Option ℕ → UnitOptions → Result ResolvedUnit
resolve_product_unit products product_id unit_id options = do
  product ← find_product product_id products
  throw_if (not product.track_stock && not options.allow_unstocked) Error.bad_request
  variant ← check_variant product.variants options.variant_id (not options.for_sale)
  unit ← found_unit (choose_unit unit_id options.for_sale product.units)
  throw_if (options.for_sale && not unit.is_sellable) Error.bad_request
  ok (record { product = product; unit = unit; variant = variant })
