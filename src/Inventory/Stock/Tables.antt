-- ===== src/Inventory/Stock/Tables.antt =====
-- The rows of the ledger (prisma/schema.prisma) and the inputs of src/modules/inventory/stock.service.ts.
-- Ids are numbers, times are milliseconds since 1970, and a text is the list of its code points.
use stock_mgt.Prelude.{
  ℕ, ◌≡◌, Bool, true, ◌&&◌, Option, List, arith, ◌==◌, opt_eq, opt_eq→eq, opt_eq_refl,
}
use stock_mgt.Prelude.Int.{ℤ}
use stock_mgt.Catalog.Variants.{KnownVariant}

abbrev pub Text : Type 0
Text = List ℕ

pub data StockMovementType : Type 0 where
  receipt sale return_in return_out adjustment transfer_in transfer_out damage : StockMovementType

pub data StockAdjustmentReason : Type 0 where
  damage expiry theft count_correction opening_balance receipt_correction other :
      StockAdjustmentReason

pub data OrgRole : Type 0 where
  owner manager sales_rep storekeeper accountant : OrgRole

-- What a balance row is found by: the `where` of `applyToBalance`.
pub record Key : Type 0 where
  pub product_id : ℕ
  pub variant_id : Option ℕ
  pub location_id : ℕ
  pub batch_id : ℕ

abbrev pub key_eq : Key → Key → Bool
key_eq a b =
    (a.product_id == b.product_id)
    && opt_eq a.variant_id b.variant_id
    && (a.location_id == b.location_id)
    && (a.batch_id == b.batch_id)

-- A row of `stock_movements`; `quantity` is signed. `id` is the id that the caller supplied.
pub record StockMovement : Type 0 where
  pub id : Option ℕ
  pub organization_id : ℕ
  pub key : Key
  pub type : StockMovementType
  pub quantity : ℤ
  pub reason : Option StockAdjustmentReason
  pub note : Option Text
  pub occurred_at : ℕ
  pub recorded_by_user_id : Option ℕ
  pub reference_type : Option Text
  pub reference_id : Option ℕ
  pub transfer_group_id : Option ℕ
  pub is_forced : Bool
  pub forced_reason : Option Text

-- A row of `stock_balances`.
pub record StockBalance : Type 0 where
  pub organization_id : ℕ
  pub key : Key
  pub quantity : ℤ

-- A row of `stock_batches`.
pub record StockBatch : Type 0 where
  pub id : ℕ
  pub organization_id : ℕ
  pub product_id : ℕ
  pub lot_code : Option Text
  pub expiry_date : Option ℕ
  pub received_at : ℕ
  pub quantity_received : ℤ
  pub quantity_paid_for : ℤ
  pub total_cost : ℤ

-- A row of `product_variants`.
pub record ProductVariant : Type 0 where
  pub product_id : ℕ
  pub known : KnownVariant

pub record MovementInput : Type 0 where
  pub id : Option ℕ
  pub product_id : ℕ
  pub variant_id : Option ℕ
  pub location_id : ℕ
  pub quantity : ℤ
  pub type : StockMovementType
  pub reason : Option StockAdjustmentReason
  pub note : Option Text
  pub occurred_at : Option ℕ
  pub reference_type : Option Text
  pub reference_id : Option ℕ
  pub transfer_group_id : Option ℕ

pub record InboundInput : Type 0 where
  pub movement : MovementInput
  pub open movement use *
  pub batch_id : ℕ

pub record OutboundInput : Type 0 where
  pub movement : MovementInput
  pub open movement use *
  pub batch_id : Option ℕ
  pub force : Bool
  pub forced_reason : Option Text

pub record NewLotLine : Type 0 where
  pub product_id : ℕ
  pub variant_id : Option ℕ
  pub location_id : ℕ
  pub quantity : ℤ
  pub type : StockMovementType
  pub reason : Option StockAdjustmentReason
  pub note : Option Text
  pub occurred_at : ℕ
  pub lot_code : Option Text
  pub expiry_date : Option ℕ
  pub total_cost : ℤ
  pub quantity_paid_for : ℤ

-- The request's TenantContext, with the time and the random ids that the call reads.
pub record Context : Type 0 where
  pub user_id : Option ℕ
  pub organization_id : Option ℕ
  pub org_role : Option OrgRole
  pub now : ℕ
  pub random_uuid : ℕ → ℕ

pub key_eq_refl : (k : Key) → key_eq k k ≡ true
key_eq_refl k = ground (arith, opt_eq_refl k.variant_id)

pub key_eq→eq : (a b : Key) → key_eq a b ≡ true → a ≡ b
key_eq→eq a b h = ground (arith, opt_eq→eq a.variant_id b.variant_id)
