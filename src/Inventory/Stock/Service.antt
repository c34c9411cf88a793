-- ===== src/Inventory/Stock/Service.antt =====
-- The operations of `StockService`, over any database.
pub mod Guards
use stock_mgt.Prelude.{
  ℕ, Bool, true, false, ◌&&◌, ◌||◌, not, Option, none, some, [], ◌∷◌, map, ltb, leb, ◌==◌,
  if◌then◌else◌, or_else, is_some,
}
use stock_mgt.Prelude.Int.{ℤ, pos, leb_ℤ}
use stock_mgt.Prelude.Lists.{select, length}
use stock_mgt.Prelude.Result.{Result, ok, err, Error, throw_if}
use stock_mgt.Catalog.Variants.{check_variant}
use stock_mgt.Inventory.Stock.Tables.{
  Text, StockMovementType, OrgRole, Key, StockMovement, ProductVariant, InboundInput, Context,
}
use stock_mgt.Inventory.Stock.Writer.{StockWriter}
use stock_mgt.Inventory.Stock.Calls.{Action, pure, lift, insert_or_throw, ◌>>=◌, ◌>>◌}

abbrev pub is_new_stock_or_sale : StockMovementType → Bool
is_new_stock_or_sale StockMovementType.receipt = true
is_new_stock_or_sale StockMovementType.sale = true
is_new_stock_or_sale _ = false

abbrev pub is_force_role : Option OrgRole → Bool
is_force_role (some OrgRole.owner) = true
is_force_role (some OrgRole.manager) = true
is_force_role _ = false

-- White space as `trim` removes it.
abbrev pub is_space : ℕ → Bool
is_space c =
    (leb 9 c && leb c 13)
    || (c == 32)
    || (c == 160)
    || (c == 0x1680)
    || (leb 0x2000 c && leb c 0x200a)
    || (c == 0x2028)
    || (c == 0x2029)
    || (c == 0x202f)
    || (c == 0x205f)
    || (c == 0x3000)
    || (c == 0xfeff)

-- `!text?.trim()`
unfoldable pub is_blank : Option Text → Bool
is_blank none = true
is_blank (some []) = true
is_blank (some (c ∷ cs)) = is_space c && is_blank (some cs)

-- The result of `assertPositive`.
unfoldable pub assert_positive : ℤ → Result (Unit {0})
assert_positive quantity = throw_if (leb_ℤ quantity (pos 0)) Error.conflict

unfoldable pub require_organization_id : Context → Result ℕ
require_organization_id ctx = elim ctx.organization_id [ none ↦ err Error.plain | some id ↦ ok id ]

unfoldable pub assert_may_force : Context → Option Text → Result (Unit {0})
unfolding is_blank
assert_may_force ctx forced_reason =
    if not (is_force_role ctx.org_role)
    then err Error.forbidden
    else throw_if (is_blank forced_reason) Error.conflict

module _ {Db : Type 0} (w : StockWriter Db) (ctx : Context) where
  unfoldable pub assert_variant : ℕ → Option ℕ → Bool → Action Db (Unit {0})
  assert_variant product_id variant_id allow_retired d =
      let variants =
        map (λ (v : ProductVariant). v.known)
          (select (λ (v : ProductVariant). v.product_id == product_id) (w.variants d)) in
      if (length variants == 0) && not (is_some variant_id)
      then (ok tt, d)
      else elim (check_variant variants variant_id allow_retired) [
        | ok _ ↦ (ok tt, d)
        | err e ↦ (err e, d)
      ]

  unfoldable pub apply_to_balance : Key → ℤ → Action Db (Unit {0})
  unfolding require_organization_id
  apply_to_balance key delta d =
      let (count, updated) = w.update_balances key delta d in
      if ltb 0 count then (ok tt, updated) else elim (require_organization_id ctx) [
        | err e ↦ (err e, updated)
        | ok organization_id ↦
            elim (w.create_balances
              (record { organization_id = organization_id; key = key; quantity = delta } ∷ [])
              updated) [
                | some created ↦ (ok tt, created)
                | none ↦ (ok tt, (w.update_balances key delta updated).1)
              ]
      ]

  abbrev pub inbound_movement : InboundInput → ℕ → StockMovement
  inbound_movement input organization_id = record {
    id = input.id;
    organization_id = organization_id;
    key = record {
      product_id = input.product_id;
      variant_id = input.variant_id;
      location_id = input.location_id;
      batch_id = input.batch_id;
    };
    type = input.type;
    quantity = input.quantity;
    reason = input.reason;
    note = input.note;
    occurred_at = or_else input.occurred_at ctx.now;
    recorded_by_user_id = ctx.user_id;
    reference_type = input.reference_type;
    reference_id = input.reference_id;
    transfer_group_id = input.transfer_group_id;
    is_forced = false;
    forced_reason = none;
  }

  unfoldable pub record_inbound : InboundInput → Action Db StockMovement
  unfolding assert_positive require_organization_id
  record_inbound input = do
    lift (assert_positive input.quantity)
    assert_variant input.product_id input.variant_id (not (is_new_stock_or_sale input.type))
    organization_id ← lift (require_organization_id ctx)
    let movement = inbound_movement input organization_id
    insert_or_throw (w.create_movements (movement ∷ []))
    apply_to_balance movement.key input.quantity
    pure movement
