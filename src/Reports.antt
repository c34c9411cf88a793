-- ===== src/Reports.antt =====
-- src/modules/reports: the calculations behind the figures.
pub mod Growth
pub mod Profit
pub mod StockAlerts
pub mod StockSummary
