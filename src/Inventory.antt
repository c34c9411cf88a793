-- ===== src/Inventory.antt =====
-- Stock: which lots go first, what a movement writes, and how a delivery's costs are shared
-- (src/modules/inventory).
pub mod DeliveryCorrection
pub mod DeliveryFee
pub mod Fefo
pub mod Locations
pub mod Stock
pub mod Stocktake
