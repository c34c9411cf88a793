-- ===== src/Payables.antt =====
-- src/modules/payables: what the shop owes its vendors.
pub mod Balance
