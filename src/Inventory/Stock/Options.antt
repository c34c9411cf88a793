-- ===== src/Inventory/Stock/Options.antt =====
-- `moveIntoVariant` of src/modules/inventory/stock.service.ts: the stock that a product held without
-- an option moves into one.
pub mod Effect
use Prim.Native.Char.{code}
use Prim.Native.String
use Prim.Native.String.{String}
use stock_mgt.Prelude.{
  ℕ, ◌≡◌, Bool, true, false, ◌&&◌, not, List, [], ◌∷◌, ◌++◌, Option, some, none, ◌==◌,
  if◌then◌else◌, opt_eq,
}
use stock_mgt.Prelude.Int.{ℤ, pos, neg, eqb_ℤ}
use stock_mgt.Prelude.Lists.{select, length}
use stock_mgt.Prelude.Result.{Result, ok, err}
use stock_mgt.Inventory.Stock.Tables.{
  Text, Key, StockMovementType, StockMovement, StockBalance, Context,
}
use stock_mgt.Inventory.Stock.Writer.{StockWriter}
use stock_mgt.Inventory.Stock.Calls.{Action, pure, lift, insert_or_throw, ◌>>=◌, ◌>>◌}
use stock_mgt.Inventory.Stock.Service.{apply_to_balance, require_organization_id}

-- The code points of a text.
abbrev pub codes : String → Text
codes String.[] = []
codes (String.◌∷◌ c s) = code c ∷ codes s

unfoldable pub moved_note : Text → Text
moved_note name =
    codes "Moved into "
    ++ ((34 ∷ []) ++ (name ++ ((34 ∷ []) ++ codes " when the product's options were added")))

-- The `where` of the read: the product's stock without an option, where there is any.
abbrev pub is_optionless : ℕ → StockBalance → Bool
is_optionless product_id b =
    (b.key.product_id == product_id)
    && opt_eq b.key.variant_id none
    && not (eqb_ℤ b.quantity (pos 0))

-- A key with another option.
abbrev pub with_option : Option ℕ → Key → Key
with_option variant_id k = record k { variant_id = variant_id }

module _ {Db : Type 0} (w : StockWriter Db) (ctx : Context) where
  abbrev pub half_movement :
      ℕ → Text → StockMovementType → Option ℕ → StockBalance → ℤ → StockMovement
  half_movement organization_id name type variant_id balance quantity = record {
    id = none;
    organization_id = organization_id;
    key = with_option variant_id balance.key;
    type = type;
    quantity = quantity;
    reason = none;
    note = some (moved_note name);
    occurred_at = ctx.now;
    recorded_by_user_id = ctx.user_id;
    reference_type = none;
    reference_id = none;
    transfer_group_id = some (ctx.random_uuid 0);
    is_forced = false;
    forced_reason = none;
  }

  -- One half of a move: a movement and its balance.
  unfoldable pub move_half : StockMovement → Action Db StockMovement
  move_half m = do
    insert_or_throw (w.create_movements (m ∷ []))
    apply_to_balance w ctx m.key m.quantity
    pure m

  -- The loop over the balances, each taken out without an option and put in with it.
  unfoldable pub move_balances : ℕ → Text → ℕ → List StockBalance → Action Db (List StockMovement)
  unfolding move_half
  move_balances organization_id name variant_id [] = pure []
  move_balances organization_id name variant_id (balance ∷ balances) = do
    out ← move_half (
        half_movement organization_id name StockMovementType.transfer_out none balance
          (neg balance.quantity))
    into ← move_half (
        half_movement organization_id name StockMovementType.transfer_in (some variant_id) balance
          balance.quantity)
    rest ← move_balances organization_id name variant_id balances
    pure (out ∷ into ∷ rest)

  unfoldable pub move_into_variant : ℕ → ℕ → Text → Action Db (List StockMovement)
  unfolding move_balances require_organization_id
  move_into_variant product_id variant_id name d =
      let balances = select (is_optionless product_id) (w.balances d) in
      if length balances == 0
      then (ok [], d)
      else (do
        organization_id ← lift (require_organization_id ctx)
        move_balances organization_id name variant_id balances)
          d
