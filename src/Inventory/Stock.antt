-- ===== src/Inventory/Stock.antt =====
-- src/modules/inventory/stock.service.ts: every write into the stock ledger. `Tables` holds the rows,
-- `Writer` what the service asks of the database, `Service` the operations; the other children prove
-- that the cached balances follow the movements.
pub mod Tables
pub mod Writer
pub mod Calls
pub mod Service
pub mod Outbound
pub mod Ledger
pub mod Inbound
pub mod Lots
pub mod Options
pub mod OnHand
pub mod Operations
pub mod Refine
pub mod Reach
pub mod Memory
