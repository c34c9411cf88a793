-- ===== src/Common.antt =====
-- What every module of the API shares (src/common).
pub mod Idempotency
