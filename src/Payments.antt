-- ===== src/Payments.antt =====
-- src/modules/payments: what invoices owe, and the payments that settle them.
pub mod Allocation
pub mod Balance
