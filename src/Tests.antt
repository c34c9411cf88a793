-- ===== src/Tests.antt =====
-- Runs of the program at concrete inputs.
mod Money
mod Fefo
mod Stock
mod Figures
mod Reports
mod Delivery
mod Catalog
mod Payments
mod Sales
mod Floor
mod Stocktake
mod Idempotency
mod Locations
mod Alerts
