-- ===== src/Inventory/Stock/Service/Guards.antt =====
-- The checks that open every operation: a call that passes them is a call for a positive quantity,
-- and they change nothing.
use stock_mgt.Prelude.{
  ℕ, ◌≡◌, refl, Bool, ◌&&◌, not, Option, arith, map, ◌==◌, inl, inr, Bool-cases, is_some,
}
use stock_mgt.Prelude.Int.{ℤ, pos, ◌≤ℤ◌}
use stock_mgt.Prelude.Lists.{length, select}
use stock_mgt.Prelude.Result.{Result, ok, err}
use stock_mgt.Catalog.Variants.{KnownVariant, check_variant}
use stock_mgt.Inventory.Stock.Tables.{ProductVariant, Context}
use stock_mgt.Inventory.Stock.Writer.{StockWriter}
use stock_mgt.Inventory.Stock.Calls.{Done}
use stock_mgt.Inventory.Stock.Service.{assert_positive, assert_variant}

pub assert_positive-ok : (q : ℤ) → assert_positive q ≡ ok tt → pos 1 ≤ℤ q
unfolding assert_positive
assert_positive-ok q h = ground arith

pub assert_positive-of_pos : (q : ℤ) → pos 1 ≤ℤ q → assert_positive q ≡ ok tt
unfolding assert_positive
assert_positive-of_pos q h = ground arith

module _ {Db : Type 0} (w : StockWriter Db) (ctx : Context) where
  pub assert_variant-same :
      (product_id : ℕ) (variant_id : Option ℕ) (allow_retired : Bool) (d : Db)
      → Done (λ _ d'. d' ≡ d) (assert_variant w ctx product_id variant_id allow_retired d)
  unfolding assert_variant
  assert_variant-same product_id variant_id allow_retired d =
      let variants =
        map (λ (v : ProductVariant). v.known)
          (select (λ (v : ProductVariant). v.product_id == product_id) (w.variants d)) in
      elim (Bool-cases ((length variants == 0) && not (is_some variant_id))) [
        | inl e ↦ rw e (Done.returned _ _ refl)
        | inr e ↦ rw e (checked (check_variant variants variant_id allow_retired))
      ]
    where
      checked :
          (r : Result (Option KnownVariant))
          → Done {A = Unit {0}} (λ _ d'. d' ≡ d) (elim r [ ok _ ↦ (ok tt, d) | err e ↦ (err e, d) ])
      checked (ok _) = Done.returned _ _ refl
      checked (err e) = Done.threw _ _
