-- ===== src/Sales.antt =====
-- src/modules/sales: the lines of an invoice, and a recorded sale put right.
pub mod Pricing
pub mod Correction
