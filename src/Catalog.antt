-- ===== src/Catalog.antt =====
-- The catalog's rules that the stock engine and the till rely on (src/modules/catalog).
pub mod Units
pub mod Pricing
pub mod Variants
